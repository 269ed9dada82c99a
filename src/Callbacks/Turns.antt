-- ===== src/Callbacks/Turns.antt =====
-- The turns of a transfer between two connected peers, one by one.
use librtcdc.Base.{
  ℕ, ◌+◌, ◌%◌, ◌≡◌, refl, ap, sym, ◌∙◌, Option, none, some, List, [], ◌∷◌, ◌++◌, append_assoc,
  append-nil, Bytes, Bool, true, false, All, drop, length, map, arith, drop-length-append, set-set,
  get_elem?-set_self,
}
use librtcdc.Peer.{Event, Sctp, Peer, Env, first_free}
use librtcdc.Dcep.{reopened}
use librtcdc.Channel.{new_channel, rtcdc_send_message}
use librtcdc.Channel.Sending.{find_sid-set}
use librtcdc.Transfer.{
  FileStatus, Packet, Receiver, send_files, upload_wanted, download_wanted, uv_client_upload,
  uv_fs_download, receive_all,
}
use librtcdc.Transfer.Packing.{IsSendable}
use librtcdc.Callbacks.{Job, upload, download, Side, repo_path_at, serving}
use librtcdc.Callbacks.Events.{
  act, acts, call_on_open, channel_at, run_job, run_jobs, send_packets, arrive_all,
}
use librtcdc.Callbacks.Opening.{
  IsWell, IsOpen, on_open_of, on_channel_of, on_message_of, open_event, ack_event, taking,
  answering, sending, opened,
}
use librtcdc.Callbacks.Delivery.{
  sent_event, got_event, later, send_packets_sends, packets_arrive, acts_receive,
}

-- Is exit_thread set when the work is done?
abbrev pub quits : Job → Bool
quits upload = true
quits download = false

-- The files that the work of a job sends.
abbrev pub wanted_of : Job → FileStatus → Bool
wanted_of upload = upload_wanted
wanted_of download = download_wanted

pub drop_two : (xs a b : List Event) → drop (length xs) ((xs ++ a) ++ b) ≡ a ++ b
drop_two xs a b = rw (append_assoc xs a b) (drop-length-append xs (a ++ b))

pub drop_three : (xs a b c : List Event) → drop (length xs) (((xs ++ a) ++ b) ++ c) ≡ a ++ (b ++ c)
drop_three xs a b c = rw (append_assoc (xs ++ a) b c) (drop_two xs a (b ++ c))

pub drop_all : (xs : List Event) → drop (length xs) xs ≡ []
drop_all xs = ap (drop (length xs)) (sym (append-nil xs)) ∙ drop-length-append xs []

-- What on_open does to the side that sends, behind the request.
pub open_acts :
    (writable : Bytes → Bool) (job : Job) (s : Side) (sid i : ℕ)
    → acts writable (open_event job sid ∷ (Event.on_open (on_open_of job) i s.address ∷ [])) s
      ≡ some (call_on_open (on_open_of job) i s)
unfolding acts act
open_acts writable job s sid i = ground arith

-- The side that takes accepts every packet behind the opening.
pub taker_acts :
    (writable : Bytes → Bool) (job : Job) (t : Side) (sid j : ℕ) (packets : List Packet)
    (r : Receiver)
    → All IsSendable packets
    → receive_all writable t.info.local_repo_path t.receiver packets ≡ some r
    → acts writable
        (Event.on_channel (on_channel_of job) j t.address
          ∷ (ack_event sid
              ∷ map (got_event (on_message_of job) j (repo_path_at t.address)) packets))
        t
      ≡ some (record t { receiver = r })
unfolding acts act
taker_acts writable job t sid j packets r h run =
    let taken = acts_receive writable job j packets t r h run in ground (arith, taken)

module _ (env : Env) (well : IsWell env) where
  pub job_sent :
      (open_read : Bytes → Option Bytes) (job : Job) (s : Side) (p : Peer) (packets : List Packet)
      → send_files (wanted_of job) open_read s.info.local_repo_path s.info.sy_session_diff
        ≡ some packets
      → run_jobs (serving env) open_read (job ∷ []) s p
        ≡ some (send_packets (serving env) s.info.data_channel packets p, quits job)
  unfolding run_jobs run_job uv_client_upload uv_fs_download
  job_sent open_read upload s p packets made = rw made refl
  job_sent open_read download s p packets made = rw made refl

  -- The work of a job is the sending of its packets.
  pub job_runs :
      (open_read : Bytes → Option Bytes) (job : Job) (s : Side) (p : Peer) (packets : List Packet)
      → s.jobs ≡ job ∷ []
      → send_files (wanted_of job) open_read s.info.local_repo_path s.info.sy_session_diff
        ≡ some packets
      → run_jobs (serving env) open_read s.jobs s p
        ≡ some (send_packets (serving env) s.info.data_channel packets p, quits job)
  job_runs open_read job s p packets queued made =
      ap (λ jobs. run_jobs (serving env) open_read jobs s p) queued
      ∙ job_sent open_read job s p packets made

  -- Through the channel that was opened they go out on its stream,
  pub job_sends :
      (job : Job) (p : Peer) (sctp : Sctp) (info : ℕ) (packets : List Packet)
      → IsOpen p sctp (sctp.stream_cursor % 65536)
      → send_packets (serving env) (some (first_free p.channels)) packets (opened job p sctp info)
        ≡ later (opened job p sctp info) (map (sent_event (sctp.stream_cursor % 65536)) packets)
  unfolding new_channel channel_at
  job_sends job p sctp info packets h =
      let i = first_free p.channels in
      let there =
        get_elem?-set_self p.channels i (some (sending job sctp info))
          (omega (arith, h.room, h.size)) in
      send_packets_sends env well packets (opened job p sctp info)
        (record sctp { stream_cursor = sctp.stream_cursor + 2 }) (some i) (sending job sctp info)
        refl h.deferred h.handshake (rw (there, channel_at) refl)

  -- and they reach the callback of the other side.
  pub taker_receives :
      (job : Job) (q : Peer) (s : Sctp) (sid info : ℕ) (packets : List Packet)
      → IsOpen q s sid
      → arrive_all (serving env) (map (sent_event sid) packets) (answering job q sid info)
        ≡ some (
            later (answering job q sid info) (
              map
                (got_event (on_message_of job) (first_free q.channels) (repo_path_at info))
                packets))
  unfolding reopened
  taker_receives job q s sid info packets h =
      let j = first_free q.channels in
      let c = taking job sid info in
      packets_arrive env well packets (answering job q sid info) sid j (on_message_of job) c
        (find_sid-set sid q.channels j c h.unused refl (omega (arith, h.room, h.size))) refl
        (set-set q.channels j (some c) (some c) (omega (arith, h.room, h.size)))

-- Through NULL nothing goes out.
pub null_sends :
    (env : Env) (packets : List Packet) (p : Peer) → send_packets env none packets p ≡ p
unfolding send_packets channel_at rtcdc_send_message
null_sends env [] p = refl
null_sends env (k ∷ packets) p = null_sends env packets p
