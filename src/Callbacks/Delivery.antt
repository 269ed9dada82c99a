-- ===== src/Callbacks/Delivery.antt =====
-- The packets of a transfer, from rtcdc_send_message of the one side to the callback of the other.
use librtcdc.Base.{
  ℕ, ◌≡◌, refl, ap, sym, ◌∙◌, Bool, true, Option, some, List, [], ◌∷◌, ◌++◌, append-nil,
  append_assoc, Bytes, All, set, map, arith, inl, inr, Option-cases,
}
use librtcdc.Peer.{string, Channel, Event, Sctp, Peer, Env, find_sid, notify, send_sctp_message}
use librtcdc.Dcep.{reopened, sctp_data_received_cb}
use librtcdc.Dcep.Wire.{string_ppid}
use librtcdc.Dcep.Dispatch.{message_delivered}
use librtcdc.Channel.{rtcdc_send_message, ppid_of, is_empty}
use librtcdc.Transfer.{Packet, Receiver, upload_fs_on_message, receive_all}
use librtcdc.Transfer.Packing.{IsSendable, packet_bytes, packet_of-packet_bytes, on_message-padded}
use librtcdc.Callbacks.{Job, upload, download, Side, repo_path_at, call, serving}
use librtcdc.Callbacks.Events.{
  text_at, take_packet, act, acts, channel_at, send_packets, arrive, arrive_all,
}
use librtcdc.Callbacks.Opening.{IsWell, on_message_of}

abbrev pub sent_event : ℕ → Packet → Event
sent_event sid k = Event.sendv sid string_ppid (some (packet_bytes k))

abbrev pub got_event : ℕ → ℕ → ℕ → Packet → Event
got_event f i u k = Event.on_message f i string (packet_bytes k) u

-- The peer with more events behind it.
abbrev pub later : Peer → List Event → Peer
later p events = record p { events = p.events ++ events }

later-later : (p : Peer) (a b : List Event) → later (later p a) b ≡ later p (a ++ b)
later-later p a b = ap (λ t. record p { events = t }) (append_assoc p.events a b)

later-nil : (p : Peer) → later p [] ≡ p
later-nil p = ap (λ t. record p { events = t }) (append-nil p.events)

module _ (env : Env) (well : IsWell env) where
  send_one :
      (p : Peer) (s : Sctp) (c : Channel) (k : Packet)
      → p.transport ≡ some s
      → s.deferred_messages ≡ true
      → s.handshake_done ≡ true
      → (rtcdc_send_message (serving env) p (some c) string (some (packet_bytes k))).1
        ≡ later p (sent_event c.sid k ∷ [])
  unfolding rtcdc_send_message ppid_of is_empty send_sctp_message packet_bytes
  send_one p s c k ht hd hh = ground (arith, well.sendv c.sid string_ppid (some (packet_bytes k)))

  -- Each packet is handed to the network, on the stream of the channel.
  pub send_packets_sends :
      (packets : List Packet) (p : Peer) (s : Sctp) (slot : Option ℕ) (c : Channel)
      → p.transport ≡ some s
      → s.deferred_messages ≡ true
      → s.handshake_done ≡ true
      → channel_at p slot ≡ some c
      → send_packets (serving env) slot packets p ≡ later p (map (sent_event c.sid) packets)
  unfolding send_packets channel_at
  send_packets_sends [] p s slot c ht hd hh there = sym (later-nil p)
  send_packets_sends (k ∷ packets) p s slot c ht hd hh there =
      rw (there, send_one p s c k ht hd hh)
        (send_packets_sends packets (later p (sent_event c.sid k ∷ [])) s slot c ht hd hh there
          ∙ later-later p (sent_event c.sid k ∷ []) (map (sent_event c.sid) packets))

  arrive_one :
      (q : Peer) (sid i f : ℕ) (c : Channel) (k : Packet)
      → find_sid sid q.channels ≡ some (i, c)
      → c.on_message ≡ some f
      → set q.channels i (some (record c { state = reopened c.state })) ≡ q.channels
      → arrive (serving env) (sent_event sid k) q
        ≡ some (later q (got_event f i c.user_data k ∷ []))
  unfolding arrive sctp_data_received_cb packet_bytes is_empty ppid_of notify call
  arrive_one q sid i f c k found calls same =
      let got =
        message_delivered (serving env) q string (packet_bytes k) string_ppid sid i f c refl found
          calls in
      rw got (
        ap (λ cs. some (record (later q (got_event f i c.user_data k ∷ [])) { channels = cs }))
          same)

  -- Each packet reaches the callback of the channel with the stream id.
  pub packets_arrive :
      (packets : List Packet) (q : Peer) (sid i f : ℕ) (c : Channel)
      → find_sid sid q.channels ≡ some (i, c)
      → c.on_message ≡ some f
      → set q.channels i (some (record c { state = reopened c.state })) ≡ q.channels
      → arrive_all (serving env) (map (sent_event sid) packets) q
        ≡ some (later q (map (got_event f i c.user_data) packets))
  unfolding arrive_all
  packets_arrive [] q sid i f c found calls same = ap some (sym (later-nil q))
  packets_arrive (k ∷ packets) q sid i f c found calls same =
      let next = later q (got_event f i c.user_data k ∷ []) in
      rw (arrive_one q sid i f c k found calls same) (
        packets_arrive packets next sid i f c found calls same
        ∙ ap some (
            later-later q (got_event f i c.user_data k ∷ [])
              (map (got_event f i c.user_data) packets)))

-- The path of the repository is found, and the packet does what it would do without the network.
act_takes :
    (writable : Bytes → Bool) (job : Job) (i : ℕ) (t : Side) (k : Packet) (r : Receiver)
    → IsSendable k
    → upload_fs_on_message writable t.info.local_repo_path t.receiver k ≡ some r
    → act writable (got_event (on_message_of job) i (repo_path_at t.address) k) t
      ≡ some (record t { receiver = r })
unfolding act take_packet text_at
act_takes writable upload i t k r h run = ground (
  arith,
  packet_of-packet_bytes k h,
  on_message-padded writable t.info.local_repo_path t.receiver k h,
)
act_takes writable download i t k r h run = ground (
  arith,
  packet_of-packet_bytes k h,
  on_message-padded writable t.info.local_repo_path t.receiver k h,
)

-- So do all packets.
pub acts_receive :
    (writable : Bytes → Bool) (job : Job) (i : ℕ) (packets : List Packet) (t : Side) (r : Receiver)
    → All IsSendable packets
    → receive_all writable t.info.local_repo_path t.receiver packets ≡ some r
    → acts writable (map (got_event (on_message_of job) i (repo_path_at t.address)) packets) t
      ≡ some (record t { receiver = r })
unfolding acts receive_all
acts_receive writable job i [] t r h run = ground arith
acts_receive writable job i (k ∷ packets) t r h run =
    elim (Option-cases (upload_fs_on_message writable t.info.local_repo_path t.receiver k)) [
      | inl fault ↦ cc (rw fault at run)
      | inr (next, one) ↦
          rw (act_takes writable job i t k next h.0 one) (
            acts_receive writable job i packets (record t { receiver = next }) r h.1
              (rw one at run))
    ]
