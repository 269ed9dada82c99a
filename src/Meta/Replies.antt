-- ===== src/Meta/Replies.antt =====
-- Several messages of one session, and what the metadata server makes of them.
use librtcdc.Base.{ℕ, ◌<◌, ◌≡◌, some, Bytes, length, arith}
use librtcdc.Meta.Json.{text_of, session_id, repo_name, client_sdp, client_candidates}
use librtcdc.Meta.Store.{
  fs_upload_ready, sy_upload, SessionDoc, SessionInfo, IsCollection, to_int32, of_int32,
}
use librtcdc.Meta.Database.{Driver, Server, has_id, session_info}
use librtcdc.Meta.Server.{write_data_size}
use librtcdc.Meta.Sync.{offer, on_sy_upload, start_upload, on_fs_upload_ready, pass_on}
use librtcdc.Meta.Routing.{
  posted, post_fits, posted-write_data, get_session_found, session_info_moved, update_client_wsi,
}

module _ {E S F U : Type 0} (lib : Driver E S F U) where
  -- A session of the database whose client uploads from the connection `client`: the offer fits the
  -- buffer, and the update succeeds.
  pub record IsUpload (m : Server S F U) (msg : E) (client : ℕ) (d : SessionDoc E)
      (info : SessionInfo) (id sdp candidates : Bytes) (after : S) : Type 0 where
    pub found : lib.sessions.find (has_id lib id) m.sessions ≡ some d
    pub read : session_info lib id d ≡ some info
    pub has_session : text_of lib.json msg session_id ≡ some id
    pub has_sdp : text_of lib.json msg client_sdp ≡ some sdp
    pub has_candidates : text_of lib.json msg client_candidates ≡ some candidates
    pub updates :
        lib.sessions.update
          (has_id lib id)
          (λ e. record e { client_wsi = to_int32 client })
          m.sessions
        ≡ some after
    pub fits :
        length (lib.json.dumps (offer lib sy_upload id info.repo_name sdp candidates))
        < write_data_size

  pub on_sy_upload_posts :
      (m : Server S F U) (msg : E) (client : ℕ) (d : SessionDoc E) (info : SessionInfo)
      (id sdp candidates : Bytes) (after : S)
      → IsUpload m msg client d info id sdp candidates after
      → on_sy_upload lib client msg m
        ≡ some (
            posted lib client info.fileserver_wsi sy_upload
              (lib.json.dumps (offer lib sy_upload id info.repo_name sdp candidates))
              (record m { sessions = after }))
  unfolding on_sy_upload start_upload
  on_sy_upload_posts m msg client d info id sdp candidates after h =
      let hs = h.has_session in
      let hp = h.has_sdp in
      let hc = h.has_candidates in
      let got = get_session_found lib id d info m h.found h.read in
      let updated = update_client_wsi lib id client m after h.updates in
      let sent =
        post_fits lib client info.fileserver_wsi sy_upload
          (lib.json.dumps (offer lib sy_upload id info.repo_name sdp candidates))
          (record m { sessions = after }) h.fits in
      ground (arith, hs, hp, hc, got, updated, sent)

  -- The session is then read back with the new connection.
  found_again :
      (m : Server S F U) (msg : E) (client : ℕ) (d : SessionDoc E) (info : SessionInfo)
      (id sdp candidates : Bytes) (after : S)
      → IsCollection lib.sessions
      → IsUpload m msg client d info id sdp candidates after
      → lib.sessions.find (has_id lib id) after ≡ some (record d { client_wsi = to_int32 client })
  found_again m msg client d info id sdp candidates after laws h =
      laws.find-update (has_id lib id) (λ e. record e { client_wsi = to_int32 client }) d m.sessions
        after h.updates h.found (laws.find-holds (has_id lib id) d m.sessions h.found)

  -- An upload in a session that stands and that the database can update: the offer of a client at
  -- an address below 2^31, if it fits the buffer, waits to be written to the file server of the
  -- session, and the file server's answer, if it fits the buffer, then waits to be written,
  -- unchanged, to just that client, from whichever connection the session began.
  pub upload_answered :
      (m : Server S F U) (msg ready : E) (client v : ℕ) (d : SessionDoc E) (info : SessionInfo)
      (id sdp candidates raw : Bytes) (after : S)
      → IsCollection lib.sessions
      → IsUpload m msg client d info id sdp candidates after
      → client < 2147483648
      → text_of lib.json ready session_id ≡ some id
      → length raw < write_data_size
      → (asked : Server S F U) × (answered : Server S F U) × (on_sy_upload lib client msg m
          ≡ some asked)
        × (asked.write_data client ≡ record {
          target_wsi = info.fileserver_wsi;
          type = sy_upload;
          content = lib.json.dumps (offer lib sy_upload id info.repo_name sdp candidates);
        })
        × (on_fs_upload_ready lib v ready raw asked ≡ some answered)
        × (answered.write_data v
            ≡ record { target_wsi = client; type = fs_upload_ready; content = raw })
  unfolding on_fs_upload_ready pass_on
  upload_answered m msg ready client v d info id sdp candidates raw after laws h small has fits =
      let content = lib.json.dumps (offer lib sy_upload id info.repo_name sdp candidates) in
      let asked =
        posted lib client info.fileserver_wsi sy_upload content (record m { sessions = after }) in
      let again = found_again m msg client d info id sdp candidates after laws h in
      let moved = session_info_moved lib id d info (to_int32 client) h.read in
      let got =
        get_session_found lib id (record d { client_wsi = to_int32 client })
          (record info { client_wsi = of_int32 (to_int32 client) }) asked again moved in
      let back : of_int32 (to_int32 client) ≡ client = ground arith in
      let sent = post_fits lib v client fs_upload_ready raw asked fits in
      (
        asked,
        posted lib v client fs_upload_ready raw asked,
        on_sy_upload_posts m msg client d info id sdp candidates after h,
        posted-write_data lib client info.fileserver_wsi sy_upload content
            (record m { sessions = after }),
        ground (arith, has, got, back, sent),
        posted-write_data lib v client fs_upload_ready raw asked,
      )
