-- ===== src/Callbacks/Carrying.antt =====
-- What goes on between two connected peers once one has asked for a channel.
use librtcdc.Base.{
  ℕ, ◌%◌, ◌≡◌, refl, ap, sym, ◌∙◌, Option, none, some, List, [], ◌∷◌, append-nil, Bytes, Bool, All,
  map, drop-length-append,
}
use librtcdc.Peer.{Event, Sctp, Peer, Env, first_free}
use librtcdc.Transfer.{Packet, Receiver, send_files, receive_all}
use librtcdc.Transfer.Packing.{IsSendable}
use librtcdc.Transfer.Sendable.{IsShort, send_files-IsSendable}
use librtcdc.Transfer.Whole.{IsPlain, copied, send_files_copies}
use librtcdc.Callbacks.{Job, Side, repo_path_at, serving}
use librtcdc.Callbacks.Events.{call_on_open, send_packets, carry}
use librtcdc.Callbacks.Opening.{
  IsWell, IsOpen, on_open_of, on_channel_of, on_message_of, open_event, ack_event, asking,
  answering, opened, answer_arrives, ack_arrives,
}
use librtcdc.Callbacks.Delivery.{sent_event, got_event, later}
use librtcdc.Callbacks.Turns.{
  quits, wanted_of, drop_two, drop_three, open_acts, taker_acts, job_runs, job_sends,
  taker_receives, null_sends,
}

-- Two connected peers with room for the channel of a job, and the callbacks of the side that takes.
pub record IsLinked (job : Job) (p : Peer) (a : Sctp) (q : Peer) (b : Sctp) (info : ℕ)
    : Type 0 where
  pub sender : IsOpen p a (a.stream_cursor % 65536)
  pub taker : IsOpen q b (a.stream_cursor % 65536)
  pub callback : q.on_channel ≡ some (on_channel_of job)
  pub user_data : q.user_data ≡ info

-- The side that takes ends with what the packets that go out do to it.
pub carry_sends :
    (env other : Env) (open_read : Bytes → Option Bytes) (writable : Bytes → Bool) (job : Job)
    (p q : Peer) (a b : Sctp) (s s' t : Side) (packets out : List Packet) (r : Receiver)
    → IsWell env
    → IsWell other
    → IsLinked job p a q b t.address
    → call_on_open (on_open_of job) (first_free p.channels) s ≡ s'
    → s'.jobs ≡ job ∷ []
    → send_files (wanted_of job) open_read s'.info.local_repo_path s'.info.sy_session_diff
      ≡ some packets
    → send_packets (serving env) s'.info.data_channel packets (opened job p a s.address)
      ≡ later (opened job p a s.address) (map (sent_event (a.stream_cursor % 65536)) out)
    → All IsSendable out
    → receive_all writable t.info.local_repo_path t.receiver out ≡ some r
    → (received : Peer) × (carry
          (serving env)
          (serving other)
          open_read
          writable
          p
          (asking job p a s.address)
          s
          q
          t
        ≡ some (received, record t { receiver = r }, quits job))
carry_sends env other open_read writable job p q a b s s' t packets out r well well' link noted
      queued made sent fit run =
    let sid = a.stream_cursor % 65536 in
    let j = first_free q.channels in
    let asked = open_event job sid ∷ [] in
    let called = Event.on_channel (on_channel_of job) j t.address ∷ [] in
    let acked = ack_event sid ∷ [] in
    let open_now = Event.on_open (on_open_of job) (first_free p.channels) s.address ∷ [] in
    let got = map (got_event (on_message_of job) j (repo_path_at t.address)) out in
    (
      later (answering job q sid t.address) got,
      rw
          (
            drop-length-append p.events asked,
            answer_arrives other well' job q b sid t.address link.taker link.callback
                link.user_data,
            drop_two q.events called acked,
            ack_arrives env well job p a s.address (on_channel_of job) j t.address link.sender,
            drop_two p.events asked open_now,
            open_acts writable job s sid (first_free p.channels),
            noted,
            job_runs env well open_read job s' (opened job p a s.address) packets queued made,
            sent,
            drop-length-append (opened job p a s.address).events (map (sent_event sid) out),
            taker_receives other well' job q b sid t.address out link.taker,
            drop_three q.events called acked got,
            taker_acts writable job t sid j out r fit run,
          )
          refl,
    )

-- Where on_open has found the channel in the struct, the files are carried over.
pub carry_copies :
    (env other : Env) (open_read : Bytes → Option Bytes) (writable : Bytes → Bool) (job : Job)
    (p q : Peer) (a b : Sctp) (s s' t : Side)
    → IsWell env
    → IsWell other
    → IsLinked job p a q b t.address
    → call_on_open (on_open_of job) (first_free p.channels) s ≡ s'
    → s'.jobs ≡ job ∷ []
    → s'.info.data_channel ≡ some (first_free p.channels)
    → All
        (IsPlain writable open_read s'.info.local_repo_path t.info.local_repo_path)
        s'.info.sy_session_diff
    → All (IsShort open_read s'.info.local_repo_path) s'.info.sy_session_diff
    → (received : Peer) × (t' : Side) × (carry
          (serving env)
          (serving other)
          open_read
          writable
          p
          (asking job p a s.address)
          s
          q
          t
        ≡ some (received, t', quits job))
      × (t'.receiver.disk
          ≡ copied
              (wanted_of job)
              open_read
              s'.info.local_repo_path
              t.info.local_repo_path
              s'.info.sy_session_diff
              t.receiver.disk)
carry_copies env other open_read writable job p q a b s s' t well well' link noted queued here plain
      short =
    let repo = s'.info.local_repo_path in
    let files = s'.info.sy_session_diff in
    let (packets, r, made, run, disk) =
      send_files_copies (wanted_of job) writable open_read repo t.info.local_repo_path files
        t.receiver plain in
    let fit = send_files-IsSendable (wanted_of job) open_read repo files packets short made in
    let (received, done) =
      carry_sends env other open_read writable job p q a b s s' t packets packets r well well' link
        noted queued made (rw here (job_sends env well job p a s.address packets link.sender)) fit
        run in
    (received, record t { receiver = r }, done, disk)

-- Where it has found none, nothing is, and nothing says so.
pub carry_loses :
    (env other : Env) (open_read : Bytes → Option Bytes) (writable : Bytes → Bool) (job : Job)
    (p q : Peer) (a b : Sctp) (s s' t : Side) (packets : List Packet)
    → IsWell env
    → IsWell other
    → IsLinked job p a q b t.address
    → call_on_open (on_open_of job) (first_free p.channels) s ≡ s'
    → s'.jobs ≡ job ∷ []
    → s'.info.data_channel ≡ none
    → send_files (wanted_of job) open_read s'.info.local_repo_path s'.info.sy_session_diff
      ≡ some packets
    → (received : Peer) × (carry
          (serving env)
          (serving other)
          open_read
          writable
          p
          (asking job p a s.address)
          s
          q
          t
        ≡ some (received, t, quits job))
unfolding receive_all
carry_loses env other open_read writable job p q a b s s' t packets well well' link noted queued
      gone made =
    let still : Peer = opened job p a s.address in
    let nothing =
      null_sends (serving env) packets still
      ∙ sym (ap (λ (e : List Event). record still { events = e }) (append-nil still.events)) in
    carry_sends env other open_read writable job p q a b s s' t packets [] t.receiver well well'
      link noted queued made (rw gone nothing) tt refl
