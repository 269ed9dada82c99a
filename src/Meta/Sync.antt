-- ===== src/Meta/Sync.antt =====
-- The cases of callback_SDP in APIs/ms/metadata_server.c for the sessions that stand: status, upload,
-- download and cleanup. A run through NULL, or that copies too long a text, is `none`.
use librtcdc.Base.{ℕ, Option, none, some, List, [], Bytes, ◌>>=◌}
use librtcdc.Meta.Json.{
  text, array, text_of, array_of, session_id, repo_name, files, client_sdp, client_candidates,
  filename, fs_checksum, client_checksum, diff,
}
use librtcdc.Meta.Join.{join_checksum_arrays, diff_array}
use librtcdc.Meta.Store.{
  MetadataType, fs_upload_ready, fs_download_ready, sy_status, sy_status_ok, sy_upload, sy_download,
  sy_cleanup_ok, SessionInfo,
}
use librtcdc.Meta.Database.{Driver, Server, Field, delete_session, update_session, get_session}
use librtcdc.Meta.Database as Database
use librtcdc.Meta.Server.{post, message}

-- What json_array_foreach makes of NULL.
abbrev pub or_empty : {E : Type 0} → Option (List E) → List E
or_empty none = []
or_empty (some es) = es

module _ {E S F U : Type 0} (lib : Driver E S F U) where
  -- SY_STATUS with its session: the checksums and the connection of the client are stored, and the
  -- file server is asked for its own.
  unfoldable pub ask_status :
      ℕ → E → Bytes → Option SessionInfo → Server S F U → Option (Server S F U)
  ask_status wsi msg id none m = none
  ask_status wsi msg id (some session) m = do
    first ← update_session lib id (Database.state sy_status) m
    second ← update_session lib id (Database.client_checksum (array_of lib.json msg files)) first.1
    third ← update_session lib id (Database.client_wsi wsi) second.1
    post lib wsi session.fileserver_wsi sy_status
        (lib.json.dumps (
          lib.json.put (lib.json.put (message lib sy_status) session_id (text id)) repo_name
            (text session.repo_name)))
        third.1

  unfoldable pub on_sy_status : ℕ → E → Server S F U → Option (Server S F U)
  on_sy_status wsi msg m = do
    id ← text_of lib.json msg session_id
    session ← get_session lib id m
    ask_status wsi msg id session m

  -- FS_STATUS_OK with its session.
  unfoldable pub report_status :
      ℕ → E → Bytes → Option SessionInfo → Server S F U → Option (Server S F U)
  report_status wsi msg id none m = none
  report_status wsi msg id (some session) m = do
    joined ←
        join_checksum_arrays lib.json filename (array_of lib.json msg files) fs_checksum
          (or_empty (lib.json.loads_array session.files)) client_checksum
    first ← update_session lib id (Database.files joined) m
    sent ← diff_array lib.json joined
    second ← update_session lib id (Database.diff sent) first.1
    post lib wsi session.client_wsi sy_status_ok
        (lib.json.dumps (
          lib.json.put (lib.json.put (message lib sy_status_ok) session_id (text id)) files
            (array sent)))
        second.1

  unfoldable pub on_fs_status_ok : ℕ → E → Server S F U → Option (Server S F U)
  on_fs_status_ok wsi msg m = do
    id ← text_of lib.json msg session_id
    session ← get_session lib id m
    report_status wsi msg id session m

  -- The offer of a client, as it goes on to the file server.
  abbrev pub offer : MetadataType → Bytes → Bytes → Bytes → Bytes → E
  offer type id repo sdp candidates =
      lib.json.put
        (lib.json.put
          (lib.json.put (lib.json.put (message lib type) session_id (text id)) repo_name
            (text repo))
          client_sdp (text sdp))
        client_candidates (text candidates)

  unfoldable pub start_upload :
      ℕ → (id sdp candidates : Bytes) → Option SessionInfo → Server S F U → Option (Server S F U)
  start_upload wsi id sdp candidates none m = none
  start_upload wsi id sdp candidates (some session) m = do
    updated ← update_session lib id (Database.client_wsi wsi) m
    post lib wsi session.fileserver_wsi sy_upload
        (lib.json.dumps (offer sy_upload id session.repo_name sdp candidates)) updated.1

  unfoldable pub on_sy_upload : ℕ → E → Server S F U → Option (Server S F U)
  on_sy_upload wsi msg m = do
    id ← text_of lib.json msg session_id
    sdp ← text_of lib.json msg client_sdp
    candidates ← text_of lib.json msg client_candidates
    session ← get_session lib id m
    start_upload wsi id sdp candidates session m

  unfoldable pub start_download :
      ℕ → (id sdp candidates : Bytes) → Option SessionInfo → Server S F U → Option (Server S F U)
  start_download wsi id sdp candidates none m = none
  start_download wsi id sdp candidates (some session) m = do
    updated ← update_session lib id (Database.client_wsi wsi) m
    post lib wsi session.fileserver_wsi sy_download
        (lib.json.dumps (
          lib.json.put (offer sy_download id session.repo_name sdp candidates) diff
            (array (or_empty (lib.json.loads_array session.diff)))))
        updated.1

  unfoldable pub on_sy_download : ℕ → E → Server S F U → Option (Server S F U)
  on_sy_download wsi msg m = do
    id ← text_of lib.json msg session_id
    sdp ← text_of lib.json msg client_sdp
    candidates ← text_of lib.json msg client_candidates
    session ← get_session lib id m
    start_download wsi id sdp candidates session m

  -- The answer of a file server goes on to the client as it was received.
  unfoldable pub pass_on :
      MetadataType → ℕ → Bytes → Option SessionInfo → Server S F U → Option (Server S F U)
  pass_on type wsi raw none m = none
  pass_on type wsi raw (some session) m = post lib wsi session.client_wsi type raw m

  unfoldable pub on_fs_upload_ready : ℕ → E → Bytes → Server S F U → Option (Server S F U)
  on_fs_upload_ready wsi msg raw m = do
    id ← text_of lib.json msg session_id
    session ← get_session lib id m
    pass_on fs_upload_ready wsi raw session m

  unfoldable pub on_fs_download_ready : ℕ → E → Bytes → Server S F U → Option (Server S F U)
  on_fs_download_ready wsi msg raw m = do
    id ← text_of lib.json msg session_id
    session ← get_session lib id m
    pass_on fs_download_ready wsi raw session m

  unfoldable pub on_sy_cleanup : ℕ → E → Server S F U → Option (Server S F U)
  on_sy_cleanup wsi msg m = do
    id ← text_of lib.json msg session_id
    post lib wsi wsi sy_cleanup_ok (lib.json.dumps (message lib sy_cleanup_ok))
        (delete_session lib id m)
