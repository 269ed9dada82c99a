-- ===== src/Callbacks.antt =====
-- The callbacks of the file service, which the library calls: the rest of APIs/cli/cli_rtcdc.c and of
-- APIs/fs/fs_rtcdc.c. What they do to the peer is a function on it; what they do to the data of the
-- application (the struct sy_rtcdc_info_t, the open file, the work that is queued) is a function on a Side.
pub mod Address
pub mod Events
pub mod Opening
pub mod Delivery
pub mod Turns
pub mod Carrying
pub mod Sessions
pub mod Keeping
use librtcdc.Base.{
  ℕ, zero, suc, ◌+◌, Bool, true, false, ◌||◌, Option, none, some, List, [], ◌∷◌, ◌++◌, Bytes, codes,
  drop, length, get_elem?, if◌then◌else◌, ◌==◌, ltb, ◌>>=◌,
}
use librtcdc.Peer.{
  Datatype, string, Channel, Event, sendv, on_channel, on_open, on_message, Peer, Env, first_free,
}
use librtcdc.Dcep.{install, sctp_data_received_cb}
use librtcdc.Channel.{Request, create_data_channel, rtcdc_send_message}
use librtcdc.Transfer.{
  DiffInfo, Packet, Receiver, local_path_size, upload_fs_on_message, uv_client_upload,
  uv_fs_download,
}
use librtcdc.Transfer.Packing.{packet_bytes, packet_of}
use librtcdc.Callbacks.Address

-- &rtcdc_info->local_repo_path, behind SDP_SIZE bytes of local_candidates.
abbrev pub repo_path_at : ℕ → ℕ
repo_path_at info = info + 1400

-- A write through the channel's pointer, which is its slot here.
unfoldable pub with_channel : ℕ → (Channel → Channel) → Peer → Peer
with_channel i f p = elim (get_elem? p.channels i) [
  | none ↦ p
  | some slot ↦ elim slot [ none ↦ p | some c ↦ install i (some (f c)) p ]
]

unfoldable pub upload_client_on_channel : ℕ → Peer → Peer
upload_client_on_channel i =
    with_channel i (λ c. record c { on_message = some Address.upload_client_on_message_at })

unfoldable pub download_client_on_channel : ℕ → ℕ → Peer → Peer
download_client_on_channel i info = with_channel i (λ c. record c {
  on_message = some Address.download_client_on_message_at;
  user_data = repo_path_at info;
})

unfoldable pub upload_fs_on_channel : ℕ → ℕ → Peer → Peer
upload_fs_on_channel i info = with_channel i (λ c. record c {
  on_message = some Address.upload_fs_on_message_at;
  user_data = repo_path_at info;
})

unfoldable pub download_fs_on_channel : ℕ → Peer → Peer
download_fs_on_channel i =
    with_channel i (λ c. record c { on_message = some Address.download_fs_on_message_at })

-- The call of on_channel through its address.
unfoldable pub call_on_channel : ℕ → ℕ → ℕ → Peer → Peer
call_on_channel f i info p =
    if f == Address.upload_client_on_channel_at
    then upload_client_on_channel i p
    else if f == Address.download_client_on_channel_at
    then download_client_on_channel i info p
    else if f == Address.upload_fs_on_channel_at
    then upload_fs_on_channel i info p
    else if f == Address.download_fs_on_channel_at
    then download_fs_on_channel i p
    else p

-- What the callbacks do to the peer; only those of on_channel write there.
unfoldable pub call : Event → Peer → Peer
call (sendv sid ppid msg) p = p
call (on_channel f i info) p = call_on_channel f i info p
call (on_open f i info) p = p
call (on_message f i type msg info) p = p

-- An environment with these callbacks.
abbrev pub serving : Env → Env
serving env = record env { callback = call }

-- What the calls of rtcdc_create_data_channel pass on.
abbrev pub transfer_request : Bytes → ℕ → ℕ → Request
transfer_request label f info = record {
  label = some label;
  protocol = some [];
  on_open = some f;
  on_message = none;
  on_close = none;
  user_data = info;
}

-- A channel that is not made is only reported.
unfoldable pub upload_client_on_connect : Env → Peer → ℕ → Option Peer
upload_client_on_connect env p info = do
  result ←
      create_data_channel env p
        (transfer_request (codes "Upload Channel") Address.upload_client_on_open_at info)
  some result.0

-- What the upload or the download that is queued will do.
pub data Job : Type 0 where
  upload download : Job

-- struct sy_rtcdc_info_t, as far as the callbacks read and write it; a channel is its slot.
pub record Info : Type 0 where
  pub local_repo_path : Bytes
  pub sy_session_diff : List DiffInfo
  pub data_channel : Option ℕ

-- The data of the application: where its struct stands, the struct, the disk with the open file, and the
-- work for other threads.
pub record Side : Type 0 where
  pub address : ℕ
  pub info : Info
  pub receiver : Receiver
  pub jobs : List Job

-- The slot of a channel that was made, or NULL.
unfoldable pub slot_of : ℕ → Option Channel → Option ℕ
slot_of i none = none
slot_of i (some c) = some i

abbrev pub set_data_channel : Option ℕ → Side → Side
set_data_channel slot s = record s { info = record s.info { data_channel = slot } }

-- The channel is made, and then noted.
unfoldable pub download_fs_on_connect : Env → Peer → Side → Option (Peer × Side)
download_fs_on_connect env p s = do
  result ←
      create_data_channel env p
        (transfer_request (codes "Download Channel") Address.download_fs_on_open_at s.address)
  some (result.0, set_data_channel (slot_of (first_free p.channels) result.1) s)

-- The path is copied into a buffer, and no more.
unfoldable pub upload_fs_on_connect : Side → Option Side
upload_fs_on_connect s =
    if ltb (length s.info.local_repo_path) local_path_size then some s else none

unfoldable pub upload_client_on_open : ℕ → Side → Side
upload_client_on_open i s = record (set_data_channel (some i) s) { jobs = s.jobs ++ upload ∷ [] }

unfoldable pub upload_fs_on_open : ℕ → Side → Side
upload_fs_on_open i s = set_data_channel (some i) s

unfoldable pub download_fs_on_open : ℕ → Side → Side
download_fs_on_open i s = record s { jobs = s.jobs ++ download ∷ [] }
