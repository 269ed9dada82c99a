-- ===== src/Callbacks/Opening.antt =====
-- The opening of the upload channel between the callbacks of both sides.
use librtcdc.Base.{
  ℕ, ◌+◌, ◌%◌, ◌<◌, ◌≡◌, refl, ap, ◌∙◌, true, Option, none, some, [], ◌∷◌, ◌++◌, Bytes, HasNoNul,
  codes, length, get_elem?, set, arith, set-set, get_elem?-set_self,
}
use librtcdc.Peer.{
  connected, Channel, Event, Sctp, Peer, Env, max_channel_num, first_free, find_sid, notify,
  notify_if, send_sctp_message,
}
use librtcdc.Dcep.{install, answer_open, sctp_data_received_cb}
use librtcdc.Dcep.Wire.{write_open, control_ppid, channel_ack}
use librtcdc.Dcep.RoundTrip.{accepted, handle-open_request}
use librtcdc.Channel.{Request, new_channel, open_request, create_data_channel}
use librtcdc.Channel.Sending.{create_sends, ack_connects}
use librtcdc.Callbacks.Address
use librtcdc.Callbacks.{
  repo_path_at, with_channel, call_on_channel, upload_fs_on_channel, download_client_on_channel,
  call, serving, transfer_request, Job, upload, download,
}
use librtcdc.Callbacks.Events.{arrive, arrive_all}

-- Every allocation and every send succeeds.
pub record IsWell (env : Env) : Type 0 where
  pub calloc : (n : ℕ) → env.calloc n ≡ true
  pub sendv : (sid ppid : ℕ) (msg : Option Bytes) → env.sendv sid ppid msg ≡ true

-- A connected peer with room for a channel, where none has the stream id.
pub record IsOpen (p : Peer) (s : Sctp) (sid : ℕ) : Type 0 where
  pub transport : p.transport ≡ some s
  pub deferred : s.deferred_messages ≡ true
  pub handshake : s.handshake_done ≡ true
  pub room : first_free p.channels < max_channel_num
  pub size : length p.channels ≡ max_channel_num
  pub unused : find_sid sid p.channels ≡ none

-- The label of the channel of a job, and the addresses of its callbacks: the on_open of the side that
-- sends, the on_channel and the on_message of the side that takes.
abbrev pub label_of : Job → Bytes
label_of upload = codes "Upload Channel"
label_of download = codes "Download Channel"

abbrev pub on_open_of : Job → ℕ
on_open_of upload = Address.upload_client_on_open_at
on_open_of download = Address.download_fs_on_open_at

abbrev pub on_channel_of : Job → ℕ
on_channel_of upload = Address.upload_fs_on_channel_at
on_channel_of download = Address.download_client_on_channel_at

abbrev pub on_message_of : Job → ℕ
on_message_of upload = Address.upload_fs_on_message_at
on_message_of download = Address.download_client_on_message_at

label_of_fits : (job : Job) → HasNoNul (label_of job) × (length (label_of job) < 65536)
label_of_fits upload = ground arith
label_of_fits download = ground arith

abbrev pub request_of : Job → ℕ → Request
request_of job info = transfer_request (label_of job) (on_open_of job) info

abbrev pub open_event : Job → ℕ → Event
open_event job sid =
    Event.sendv sid control_ppid (some (write_open (open_request (label_of job) [])))

abbrev pub ack_event : ℕ → Event
ack_event sid = Event.sendv sid control_ppid (some (channel_ack ∷ []))

-- The side that sends, when it has asked.
abbrev pub asking : Job → Peer → Sctp → ℕ → Peer
asking job p s info = record p {
  transport = some (record s { stream_cursor = s.stream_cursor + 2 });
  channels =
      set p.channels (first_free p.channels)
        (some (new_channel (request_of job info) s.stream_cursor));
  events = p.events ++ open_event job (s.stream_cursor % 65536) ∷ [];
}

-- The channel of the side that takes.
abbrev pub taking : Job → ℕ → ℕ → Channel
taking job sid info = record (accepted (label_of job) [] sid) {
  on_message = some (on_message_of job);
  user_data = repo_path_at info;
}

-- That side when it has answered.
abbrev pub answering : Job → Peer → ℕ → ℕ → Peer
answering job q sid info = record q {
  channels = set q.channels (first_free q.channels) (some (taking job sid info));
  events =
      (q.events ++ Event.on_channel (on_channel_of job) (first_free q.channels) info ∷ [])
      ++ ack_event sid ∷ [];
}

-- The channel of the side that sends, connected.
abbrev pub sending : Job → Sctp → ℕ → Channel
sending job s info = record (new_channel (request_of job info) s.stream_cursor) {
  state = connected;
}

-- That side when its channel is open.
abbrev pub opened : Job → Peer → Sctp → ℕ → Peer
opened job p s info = record p {
  transport = some (record s { stream_cursor = s.stream_cursor + 2 });
  channels = set p.channels (first_free p.channels) (some (sending job s info));
  events =
      (p.events ++ open_event job (s.stream_cursor % 65536) ∷ [])
      ++ Event.on_open (on_open_of job) (first_free p.channels) info ∷ [];
}

module _ (env : Env) (well : IsWell env) where
  pub create_asks :
      (job : Job) (p : Peer) (s : Sctp) (info : ℕ)
      → IsOpen p s (s.stream_cursor % 65536)
      → create_data_channel (serving env) p (request_of job info)
        ≡ some (asking job p s info, some (new_channel (request_of job info) s.stream_cursor))
  create_asks job p s info h =
      create_sends (serving env) p s (request_of job info) (label_of job) [] h.transport h.deferred
        h.handshake h.room (well.calloc _) (well.calloc _) refl refl (well.sendv _ _ _)

  -- The on_channel of the side that takes writes into the new channel.
  with_channel-new :
      (q : Peer) (i : ℕ) (c : Channel) (f : Channel → Channel)
      → get_elem? q.channels i ≡ some (some c)
      → with_channel i f q ≡ install i (some (f c)) q
  unfolding with_channel
  with_channel-new q i c f there = rw (there, with_channel) refl

  call_writes :
      (job : Job) (q : Peer) (i info : ℕ) (c : Channel)
      → get_elem? q.channels i ≡ some (some c)
      → call (Event.on_channel (on_channel_of job) i info) q
        ≡ install i
            (some
              (record c { on_message = some (on_message_of job); user_data = repo_path_at info }))
            q
  unfolding call call_on_channel upload_fs_on_channel download_client_on_channel
  call_writes upload q i info c there = with_channel-new q i c _ there
  call_writes download q i info c there = with_channel-new q i c _ there

  -- What on_channel leaves, before the acknowledgement.
  called_back :
      (job : Job) (q : Peer) (sid info : ℕ)
      → first_free q.channels < length q.channels
      → let i = first_free q.channels in
        call
          (Event.on_channel (on_channel_of job) i info)
          (install i (some (accepted (label_of job) [] sid)) q)
        ≡ install i (some (taking job sid info)) q
  called_back job q sid info room =
      let i = first_free q.channels in
      let c = accepted (label_of job) [] sid in
      call_writes job (install i (some c) q) i info c
        (get_elem?-set_self q.channels i (some c) room)
      ∙ ap (λ cs. record q { channels = cs })
          (set-set q.channels i (some c) (some (taking job sid info)) room)

  answer_open_answers :
      (job : Job) (q : Peer) (s : Sctp) (sid info : ℕ)
      → IsOpen q s sid
      → q.on_channel ≡ some (on_channel_of job)
      → q.user_data ≡ info
      → answer_open
          (serving env)
          (install (first_free q.channels) (some (accepted (label_of job) [] sid)) q)
          (first_free q.channels)
          sid
        ≡ answering job q sid info
  unfolding answer_open notify_if notify send_sctp_message
  answer_open_answers job q s sid info h cb u =
      let i = first_free q.channels in
      let noted : Peer = record q {
        events = q.events ++ Event.on_channel (on_channel_of job) i info ∷ [];
      } in
      let called = called_back job noted sid info (omega (arith, h.room, h.size)) in
      ground (arith, called, well.sendv sid control_ppid (some (channel_ack ∷ [])))

  pub answer_arrives :
      (job : Job) (q : Peer) (s : Sctp) (sid info : ℕ)
      → IsOpen q s sid
      → q.on_channel ≡ some (on_channel_of job)
      → q.user_data ≡ info
      → arrive_all (serving env) (open_event job sid ∷ []) q ≡ some (answering job q sid info)
  unfolding arrive_all arrive sctp_data_received_cb write_open
  answer_arrives job q s sid info h cb u =
      let handled =
        handle-open_request (serving env) q s (label_of job) [] sid h.transport h.room
          (well.calloc _) (label_of_fits job).0 tt (label_of_fits job).1 (omega arith) in
      rw handled (ap some (answer_open_answers job q s sid info h cb u))

  pub ack_arrives :
      (job : Job) (p : Peer) (s : Sctp) (info f i u : ℕ)
      → IsOpen p s (s.stream_cursor % 65536)
      → arrive_all
          (serving env)
          (Event.on_channel f i u ∷ (ack_event (s.stream_cursor % 65536) ∷ []))
          (asking job p s info)
        ≡ some (opened job p s info)
  unfolding arrive_all arrive sctp_data_received_cb notify call
  ack_arrives job p s info f i u h =
      let before : Peer = record p {
        transport = some (record s { stream_cursor = s.stream_cursor + 2 });
        events = p.events ++ open_event job (s.stream_cursor % 65536) ∷ [];
      } in
      let acked =
        ack_connects (serving env) before (request_of job info) s.stream_cursor
          (first_free p.channels) (on_open_of job) h.unused (omega (arith, h.room, h.size)) refl in
      rw acked refl
