-- ===== src/Meta/Callback.antt =====
-- callback_SDP of APIs/ms/metadata_server.c: the switch on the metadata type, and the reasons for a callback.
use librtcdc.Base.{ℕ, Option, some, [], ◌∷◌, ◌++◌, Bytes, if◌then◌else◌, ◌==◌, ◌>>=◌}
use librtcdc.Meta.Json.{number_of, metadata_type}
use librtcdc.Meta.Store.{
  code, fs_register, fs_init_ok, fs_status_ok, fs_upload_ready, fs_download_ready, sy_init,
  sy_connect, sy_status, sy_upload, sy_download, sy_cleanup,
}
use librtcdc.Meta.Database.{Driver, Server, WriteData, delete_fileserver}
use librtcdc.Meta.Server.{
  set_write_data, no_data, on_fs_register, on_sy_init, on_fs_init_ok, on_sy_connect,
}
use librtcdc.Meta.Sync.{
  on_sy_status, on_fs_status_ok, on_sy_upload, on_fs_upload_ready, on_sy_download,
  on_fs_download_ready, on_sy_cleanup,
}

-- The reasons that callback_SDP knows; RECEIVE comes with the text, and with the object id that is made
-- for a new session or repository.
pub data Reason : Type 0 where
  established client_connection_error closed server_writeable other_reason : Reason
  receive : (oid text : Bytes) → Reason

module _ {E S F U : Type 0} (lib : Driver E S F U) where
  unfoldable pub on_message : Bytes → ℕ → Bytes → E → ℕ → Server S F U → Option (Server S F U)
  on_message oid wsi raw msg type m =
      if type == code fs_register
      then on_fs_register lib wsi m
      else if type == code sy_init
      then on_sy_init lib oid wsi msg m
      else if type == code fs_init_ok
      then on_fs_init_ok lib oid wsi msg m
      else if type == code sy_connect
      then on_sy_connect lib oid wsi msg m
      else if type == code sy_status
      then on_sy_status lib wsi msg m
      else if type == code fs_status_ok
      then on_fs_status_ok lib wsi msg m
      else if type == code sy_upload
      then on_sy_upload lib wsi msg m
      else if type == code fs_upload_ready
      then on_fs_upload_ready lib wsi msg raw m
      else if type == code sy_download
      then on_sy_download lib wsi msg m
      else if type == code fs_download_ready
      then on_fs_download_ready lib wsi msg raw m
      else if type == code sy_cleanup
      then on_sy_cleanup lib wsi msg m
      else some m

  unfoldable pub on_receive : Bytes → ℕ → Bytes → Server S F U → Option (Server S F U)
  on_receive oid wsi raw m = do
    msg ← lib.json.loads raw
    type ← number_of lib.json msg metadata_type
    on_message oid wsi raw msg type m

  -- The data is written if it is not "". Then memset clears sizeof(write_data) bytes, the size of a
  -- pointer, which is the field target_wsi.
  unfoldable pub write_content : ℕ → WriteData → Bytes → Server S F U → Server S F U
  write_content wsi w [] m = m
  write_content wsi w (c ∷ content) m = record m {
    written = m.written ++ (w.target_wsi, c ∷ content) ∷ [];
  }

  unfoldable pub on_writeable : ℕ → Server S F U → Server S F U
  on_writeable wsi m =
      let w = m.write_data wsi in
      record (write_content wsi w w.content m) {
        write_data = set_write_data wsi (record w { target_wsi = 0 }) m.write_data;
      }

  unfoldable pub callback_sdp : ℕ → Reason → Server S F U → Option (Server S F U)
  callback_sdp wsi established m =
      some (record m { write_data = set_write_data wsi no_data m.write_data })
  callback_sdp wsi client_connection_error m = some m
  callback_sdp wsi closed m = some (delete_fileserver lib wsi m)
  callback_sdp wsi server_writeable m = some (on_writeable wsi m)
  callback_sdp wsi other_reason m = some m
  callback_sdp wsi (receive oid raw) m = on_receive oid wsi raw m
