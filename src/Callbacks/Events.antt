-- ===== src/Callbacks/Events.antt =====
-- The callbacks run by the history of a peer, and two peers between which messages go.
use librtcdc.Base.{
  ℕ, Bool, false, Option, none, some, List, [], ◌∷◌, Bytes, drop, ◌||◌, ◌>>=◌, length, get_elem?,
  if◌then◌else◌, ◌==◌,
}
use librtcdc.Peer.{string, Channel, Event, sendv, on_channel, on_open, on_message, Peer, Env}
use librtcdc.Dcep.{sctp_data_received_cb}
use librtcdc.Channel.{rtcdc_send_message}
use librtcdc.Transfer.{Packet, upload_fs_on_message, uv_client_upload, uv_fs_download}
use librtcdc.Transfer.Packing.{packet_bytes, packet_of}
use librtcdc.Callbacks.Address
use librtcdc.Callbacks.{
  Job, upload, download, Side, repo_path_at, upload_client_on_open, upload_fs_on_open,
  download_fs_on_open, upload_client_on_connect, download_fs_on_connect,
}

-- The text at an address: only the path of the repository is one.
unfoldable pub text_at : Side → ℕ → Option Bytes
text_at s u = if u == repo_path_at s.address then some s.info.local_repo_path else none

-- upload_fs_on_message and download_client_on_message, with the cast of the message.
unfoldable pub take_packet : (Bytes → Bool) → Bytes → ℕ → Side → Option Side
take_packet writable msg u s = do
  repo ← text_at s u
  packet ← packet_of msg
  receiver ← upload_fs_on_message writable repo s.receiver packet
  some (record s { receiver = receiver })

-- The call of on_open through its address; its user data is the struct.
unfoldable pub call_on_open : ℕ → ℕ → Side → Side
call_on_open f i s =
    if f == Address.upload_client_on_open_at
    then upload_client_on_open i s
    else if f == Address.upload_fs_on_open_at
    then upload_fs_on_open i s
    else if f == Address.download_fs_on_open_at
    then download_fs_on_open i s
    else s

-- What the callbacks do to the application's data; `none` is a read of something else at an address.
unfoldable pub act : (Bytes → Bool) → Event → Side → Option Side
act writable (sendv sid ppid msg) s = some s
act writable (on_channel f i u) s = if u == s.address then some s else none
act writable (on_open f i u) s = if u == s.address then some (call_on_open f i s) else none
act writable (on_message f i type msg u) s =
    if f == Address.upload_fs_on_message_at || f == Address.download_client_on_message_at
    then take_packet writable msg u s
    else some s

unfoldable pub acts : (Bytes → Bool) → List Event → Side → Option Side
acts writable [] s = some s
acts writable (e ∷ events) s = do t ← act writable e s; acts writable events t

-- The channel that a pointer to it reads.
unfoldable pub channel_at : Peer → Option ℕ → Option Channel
channel_at p none = none
channel_at p (some i) = elim (get_elem? p.channels i) [ none ↦ none | some slot ↦ slot ]

-- The calls of rtcdc_send_message, one for each packet.
unfoldable pub send_packets : Env → Option ℕ → List Packet → Peer → Peer
send_packets env slot [] p = p
send_packets env slot (k ∷ packets) p =
    send_packets env slot packets
      (rtcdc_send_message env p (channel_at p slot) string (some (packet_bytes k))).1

-- The work that is queued is done: the peer, and whether its exit_thread is set at the end.
unfoldable pub run_job : Env → (Bytes → Option Bytes) → Job → Side → Peer → Option (Peer × Bool)
run_job env open_read upload s p = do
  sent ← uv_client_upload open_read s.info.local_repo_path s.info.sy_session_diff
  some (send_packets env s.info.data_channel sent.0 p, sent.1)
run_job env open_read download s p = do
  packets ← uv_fs_download open_read s.info.local_repo_path s.info.sy_session_diff
  some (send_packets env s.info.data_channel packets p, false)

unfoldable pub run_jobs :
    Env → (Bytes → Option Bytes) → List Job → Side → Peer → Option (Peer × Bool)
run_jobs env open_read [] s p = some (p, false)
run_jobs env open_read (job ∷ jobs) s p = do
  done ← run_job env open_read job s p
  rest ← run_jobs env open_read jobs s done.0
  some (rest.0, done.1 || rest.1)

-- A message that one peer has handed to the network is received by the other.
unfoldable pub arrive : Env → Event → Peer → Option Peer
arrive env (sendv sid ppid none) q = some q
arrive env (sendv sid ppid (some msg)) q = do
  result ← sctp_data_received_cb env (some q) msg false ppid sid
  result.1
arrive env (on_channel f i u) q = some q
arrive env (on_open f i u) q = some q
arrive env (on_message f i type msg u) q = some q

unfoldable pub arrive_all : Env → List Event → Peer → Option Peer
arrive_all env [] q = some q
arrive_all env (e ∷ events) q = do r ← arrive env e q; arrive_all env events r

-- What has happened at a peer since it was `p`.
abbrev pub since : Peer → Peer → List Event
since p q = drop (length p.events) q.events

-- From a channel that has been asked for to the last message: the other side answers, the on_open of the
-- side that sends finds its data in `s` and queues the work, which sends the files, and the callbacks of
-- the other side take them. All that was sent arrives, also what was sent just before exit_thread was set; the
-- flag at the end says whether it was set: then the next packet that usrsctp puts out ends the process.
abbrev pub carry :
    (sender taker : Env)
    → (Bytes → Option Bytes)
    → (Bytes → Bool)
    → (p opening : Peer) → Side
    → Peer
    → Side
    → Option (Peer × Side × Bool)
carry sender taker open_read writable p opening s q t = do
  answering ← arrive_all taker (since p opening) q
  opened ← arrive_all sender (since q answering) opening
  s' ← acts writable (since p opened) s
  sent ← run_jobs sender open_read s'.jobs s' opened
  received ← arrive_all taker (since opened sent.0) answering
  t' ← acts writable (since q received) t
  some (received, t', sent.1)

-- An upload, from upload_client_on_connect of the client to the last message at the file server.
abbrev pub upload_session :
    (client server : Env)
    → (Bytes → Option Bytes)
    → (Bytes → Bool)
    → Peer
    → Side
    → Peer
    → Side
    → Option (Peer × Side × Bool)
upload_session client server open_read writable p s q t = do
  opening ← upload_client_on_connect client p s.address
  carry client server open_read writable p opening s q t

-- A download, from download_fs_on_connect of the file server to the last message at the client. The
-- answer comes in another thread: if it is `early`, uv_fs_download reads the struct before
-- download_fs_on_connect has noted the channel there.
abbrev pub download_session :
    (server client : Env)
    → (Bytes → Option Bytes)
    → (Bytes → Bool)
    → Bool
    → Peer
    → Side
    → Peer
    → Side
    → Option (Peer × Side × Bool)
download_session server client open_read writable early p s q t = do
  made ← download_fs_on_connect server p s
  carry server client open_read writable p made.0 (if early then s else made.1) q t
