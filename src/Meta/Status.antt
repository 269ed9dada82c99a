-- ===== src/Meta/Status.antt =====
-- SY_STATUS at the metadata server, and what the database keeps of a status round.
use librtcdc.Base.{
  ℕ, ◌<◌, ◌≡◌, refl, ◌∙◌, true, some, List, [], ◌∷◌, Bytes, All, length, arith, inl, inr,
  Option-cases,
}
use librtcdc.Meta.Json.{
  IsJson, array, text, number, text_of, array_of, session_id, repo_name, files, filename,
  client_checksum, fs_checksum, dirty,
}
use librtcdc.Meta.Store.{
  sy_status, sy_status_ok, SessionDoc, SessionInfo, IsCollection, to_int32, of_int32,
}
use librtcdc.Meta.Join.{diff_array, diff_element, status_code}
use librtcdc.Meta.Database.{
  Driver, Server, Field, has_id, strcpy, session_info, update_session, set_field, set_session,
  data_size, checksum_elements, file_elements, diff_elements,
}
use librtcdc.Meta.Database as Database
use librtcdc.Meta.Server.{message, write_data_size}
use librtcdc.Meta.Sync.{on_sy_status, ask_status}
use librtcdc.Meta.Routing.{posted, post_fits, get_session_found}
use librtcdc.Protocol.Reporting.{IsReported}

module _ {E S F U : Type 0} (lib : Driver E S F U) where
  -- The messages that the two handlers write.
  abbrev pub status_request : (id repo : Bytes) → E
  status_request id repo =
      lib.json.put (lib.json.put (message lib sy_status) session_id (text id)) repo_name (text repo)

  abbrev pub status_report : Bytes → List E → E
  status_report id ds =
      lib.json.put (lib.json.put (message lib sy_status_ok) session_id (text id)) files (array ds)

  -- What the comparison could read, the database can store,
  pub file_elements-compared :
      (es ds : List E)
      → diff_array lib.json es ≡ some ds
      → (kept : List E) × (file_elements lib es ≡ some kept)
  unfolding diff_array diff_element file_elements
  file_elements-compared [] ds h = ([], refl)
  file_elements-compared (e ∷ es) ds h = elim (Option-cases (diff_array lib.json es)) [
    | inl missing ↦ absurd (ground (arith, h, missing))
    | inr (rest, a) ↦
        let (kept, done) = file_elements-compared es rest a in
        elim (Option-cases (text_of lib.json e filename)) [
          | inl missing ↦ absurd (ground (arith, h, a, missing))
          | inr (name, b) ↦ elim (Option-cases (text_of lib.json e client_checksum)) [
            | inl missing ↦ absurd (ground (arith, h, a, b, missing))
            | inr (client, c) ↦ elim (Option-cases (text_of lib.json e fs_checksum)) [
              | inl missing ↦ absurd (ground (arith, h, a, b, c, missing))
              | inr (fs, f) ↦ (
                lib.json.put
                      (lib.json.put (lib.json.put lib.json.blank filename (text name))
                        client_checksum (text client))
                      fs_checksum (text fs)
                    ∷ kept,
                rw (done, b, c, f) refl,
              )
            ]
          ]
        ]
  ]

  -- and the differences too.
  pub diff_elements-reported :
      (laws : IsJson lib.json) (ds : List E)
      → All (IsReported lib.json laws) ds
      → (kept : List E) × (diff_elements lib ds ≡ some kept)
  unfolding diff_elements
  diff_elements-reported laws [] h = ([], refl)
  diff_elements-reported laws (d ∷ ds) h =
      let (kept, done) = diff_elements-reported laws ds h.1 in
      let name = h.0.has_name in
      let status = h.0.has_status in
      (
        lib.json.put (lib.json.put lib.json.blank filename (text h.0.name)) dirty
              (number (status_code h.0.status))
            ∷ kept,
        rw (done, name, status) refl,
      )

  -- An update of a session that is found, which the database takes.
  pub updated :
      (id : Bytes) (field : Field E) (change : SessionDoc E → SessionDoc E) (d : SessionDoc E)
      (m : Server S F U) (t : S)
      → IsCollection lib.sessions
      → set_field lib field ≡ some (some change)
      → lib.sessions.find (has_id lib id) m.sessions ≡ some d
      → has_id lib id (change d) ≡ has_id lib id d
      → lib.sessions.update (has_id lib id) change m.sessions ≡ some t
      → (update_session lib id field m ≡ some (true, record m { sessions = t }))
        × (lib.sessions.find (has_id lib id) t ≡ some (change d))
  unfolding update_session set_session
  updated id field change d m t laws sets found same takes = (
    ground (arith, sets, takes),
    laws.find-update (has_id lib id) change d m.sessions t takes found
        (same ∙ laws.find-holds (has_id lib id) d m.sessions found),
  )

  -- The session with the checksums of the client.
  abbrev pub asked_doc : ℕ → List E → SessionDoc E → SessionDoc E
  asked_doc client stored d = record d {
    state = sy_status;
    files = stored;
    client_wsi = to_int32 client;
  }

  pub session_info_asked :
      (id : Bytes) (d : SessionDoc E) (info : SessionInfo) (client : ℕ) (stored : List E)
      → session_info lib id d ≡ some info
      → length (lib.json.dumps_array stored) < data_size
      → session_info lib id (asked_doc client stored d)
        ≡ some (record info {
          client_wsi = of_int32 (to_int32 client);
          files = lib.json.dumps_array stored;
        })
  unfolding session_info strcpy
  session_info_asked id d info client stored read fits = ground arith

  -- SY_STATUS of the client: the session has the checksums then, and the file server's address is asked.
  pub status_asked :
      (m : Server S F U) (msg : E) (client : ℕ) (d : SessionDoc E) (info : SessionInfo) (id : Bytes)
      (own stored : List E) (s1 s2 s3 : S)
      → IsCollection lib.sessions
      → lib.sessions.find (has_id lib id) m.sessions ≡ some d
      → session_info lib id d ≡ some info
      → text_of lib.json msg session_id ≡ some id
      → array_of lib.json msg files ≡ own
      → checksum_elements lib own ≡ some stored
      → lib.sessions.update (has_id lib id) (λ e. record e { state = sy_status }) m.sessions
        ≡ some s1
      → lib.sessions.update (has_id lib id) (λ e. record e { files = stored }) s1 ≡ some s2
      → lib.sessions.update (has_id lib id) (λ e. record e { client_wsi = to_int32 client }) s2
        ≡ some s3
      → length (lib.json.dumps (status_request id info.repo_name)) < write_data_size
      → (on_sy_status lib client msg m
          ≡ some (
              posted lib client info.fileserver_wsi sy_status
                (lib.json.dumps (status_request id info.repo_name))
                (record m { sessions = s3 })))
        × (lib.sessions.find (has_id lib id) s3 ≡ some (asked_doc client stored d))
  unfolding on_sy_status ask_status set_field
  status_asked m msg client d info id own stored s1 s2 s3 laws found read has_session has_files kept
        u1 u2 u3 fits =
      let set_state : SessionDoc E → SessionDoc E = λ e. record e { state = sy_status } in
      let (first, found1) =
        updated id (Database.state sy_status) set_state d m s1 laws refl found refl u1 in
      let set_files : SessionDoc E → SessionDoc E = λ e. record e { files = stored } in
      let (second, found2) =
        updated id (Database.client_checksum own) set_files (set_state d)
          (record m { sessions = s1 }) s2 laws (rw kept refl) found1 refl u2 in
      let set_wsi : SessionDoc E → SessionDoc E = λ e. record e { client_wsi = to_int32 client } in
      let (third, found3) =
        updated id (Database.client_wsi client) set_wsi (set_files (set_state d))
          (record m { sessions = s2 }) s3 laws refl found2 refl u3 in
      let got = get_session_found lib id d info m found read in
      let sent =
        post_fits lib client info.fileserver_wsi sy_status
          (lib.json.dumps (status_request id info.repo_name)) (record m { sessions = s3 }) fits in
      (rw (has_session, got) (rw (first, has_files) (rw (second) (rw third sent))), found3)
