-- ===== src/Meta/Reporting.antt =====
-- A status round of the metadata server: SY_STATUS of the client, FS_STATUS_OK of the file server.
use librtcdc.Base.{ℕ, ◌<◌, ◌≡◌, refl, ◌∙◌, true, some, List, Bytes, All, length, arith}
use librtcdc.Meta.Json.{
  IsJson, text_of, array_of, session_id, files, filename, client_checksum, fs_checksum,
}
use librtcdc.Meta.Store.{
  sy_status, sy_status_ok, SessionDoc, SessionInfo, IsCollection, to_int32, of_int32,
}
use librtcdc.Meta.Join.{join_checksum_arrays, diff_array}
use librtcdc.Meta.Database.{
  Driver, Server, Field, has_id, strcpy, session_info, update_session, set_field, set_session,
  data_size, checksum_elements, file_elements, diff_elements,
}
use librtcdc.Meta.Database as Database
use librtcdc.Meta.Server.{write_data_size}
use librtcdc.Meta.Sync.{on_sy_status, on_fs_status_ok, report_status}
use librtcdc.Meta.Routing.{posted, post_fits, posted-write_data, get_session_found}
use librtcdc.Meta.Rounds.{last_checksum, first_checksum}
use librtcdc.Meta.Diff.{expected, code_of, first_status, IsSummed, diff_expected}
use librtcdc.Protocol.Agreement.{checksum_elements_kept}
use librtcdc.Protocol.Reporting.{diff_array-IsReported}
use librtcdc.Meta.Status.{
  status_request, status_report, file_elements-compared, diff_elements-reported, updated, asked_doc,
  session_info_asked, status_asked,
}

module _ {E S F U : Type 0} (lib : Driver E S F U) where
  -- FS_STATUS_OK of the file server: the arrays are joined and compared, and the client is told.
  status_reported :
      (m : Server S F U) (reply : E) (client v : ℕ) (d : SessionDoc E) (info : SessionInfo)
      (id : Bytes) (stored theirs joined ds kept_files kept_diff : List E) (s1 s2 : S)
      → IsCollection lib.sessions
      → client < 2147483648
      → lib.sessions.find (has_id lib id) m.sessions ≡ some (asked_doc lib client stored d)
      → session_info lib id d ≡ some info
      → length (lib.json.dumps_array stored) < data_size
      → lib.json.loads_array (lib.json.dumps_array stored) ≡ some stored
      → text_of lib.json reply session_id ≡ some id
      → array_of lib.json reply files ≡ theirs
      → join_checksum_arrays lib.json filename theirs fs_checksum stored client_checksum
        ≡ some joined
      → diff_array lib.json joined ≡ some ds
      → file_elements lib joined ≡ some kept_files
      → diff_elements lib ds ≡ some kept_diff
      → lib.sessions.update (has_id lib id) (λ e. record e { files = kept_files }) m.sessions
        ≡ some s1
      → lib.sessions.update (has_id lib id) (λ e. record e { diff = kept_diff }) s1 ≡ some s2
      → length (lib.json.dumps (status_report lib id ds)) < write_data_size
      → on_fs_status_ok lib v reply m
        ≡ some (
            posted lib v client sy_status_ok
              (lib.json.dumps (status_report lib id ds))
              (record m { sessions = s2 }))
  unfolding on_fs_status_ok report_status set_field
  status_reported m reply client v d info id stored theirs joined ds kept_files kept_diff s1 s2 laws
        small found read room loaded has_session has_files join compared stores_files stores_diff u1
        u2 fits =
      let set_files : SessionDoc E → SessionDoc E = λ e. record e { files = kept_files } in
      let (first, found1) =
        updated lib id (Database.files joined) set_files (asked_doc lib client stored d) m s1 laws
          (rw stores_files refl) found refl u1 in
      let set_diff : SessionDoc E → SessionDoc E = λ e. record e { diff = kept_diff } in
      let (second, _) =
        updated lib id (Database.diff ds) set_diff (set_files (asked_doc lib client stored d))
          (record m { sessions = s1 }) s2 laws (rw stores_diff refl) found1 refl u2 in
      let again =
        get_session_found lib id (asked_doc lib client stored d) _ m found
          (session_info_asked lib id d info client stored read room) in
      let back : of_int32 (to_int32 client) ≡ client = ground arith in
      let sent =
        post_fits lib v client sy_status_ok (lib.json.dumps (status_report lib id ds))
          (record m { sessions = s2 }) fits in
      rw (has_session, again)
        (rw (has_files, loaded) (rw join (rw first (rw compared (rw second (rw back sent))))))

  -- The session stands, the database takes its updates, and the texts fit their buffers: the request to the
  -- file server, the checksums in the structure of the session (and jansson reads them as it wrote them),
  -- and the report to the client.
  pub record IsRound (m : Server S F U) (d : SessionDoc E) (info : SessionInfo) (id : Bytes)
      (own theirs : List E) : Type 0 where
    pub found : lib.sessions.find (has_id lib id) m.sessions ≡ some d
    pub read : session_info lib id d ≡ some info
    pub takes :
        (change : SessionDoc E → SessionDoc E) (s : S) (e : SessionDoc E)
        → lib.sessions.find (has_id lib id) s ≡ some e
        → (t : S) × (lib.sessions.update (has_id lib id) change s ≡ some t)
    pub request_fits :
        length (lib.json.dumps (status_request lib id info.repo_name)) < write_data_size
    pub room :
        (stored : List E)
        → checksum_elements lib own ≡ some stored
        → (length (lib.json.dumps_array stored) < data_size)
          × (lib.json.loads_array (lib.json.dumps_array stored) ≡ some stored)
    pub report_fits :
        (stored joined ds : List E)
        → checksum_elements lib own ≡ some stored
        → join_checksum_arrays lib.json filename theirs fs_checksum stored client_checksum
          ≡ some joined
        → diff_array lib.json joined ≡ some ds
        → length (lib.json.dumps (status_report lib id ds)) < write_data_size

  -- A status round in a session that stands, whose database takes the updates, and whose texts fit their
  -- buffers, the array of checksums in 1024 bytes: when a client at an address below 2^31 has sent its
  -- checksums, the request to the session's file server waits to be written; and when the file server has
  -- sent its own, a report for just that client waits, of which the array says of a file of any name:
  -- CLEAN or DIRTY, as its checksums are equal or not, where both sides have it; CLIENT_LACK or FS_LACK
  -- where one side has it; and nothing where none has it. (All checksums are given and none is "".)
  pub status_round :
      (json_laws : IsJson lib.json) (m : Server S F U) (msg reply : E) (client v : ℕ)
      (d : SessionDoc E) (info : SessionInfo) (id : Bytes) (own theirs : List E)
      → IsCollection lib.sessions
      → IsRound m d info id own theirs
      → client < 2147483648
      → text_of lib.json msg session_id ≡ some id
      → array_of lib.json msg files ≡ own
      → text_of lib.json reply session_id ≡ some id
      → array_of lib.json reply files ≡ theirs
      → All (IsSummed lib.json client_checksum) own
      → All (IsSummed lib.json fs_checksum) theirs
      → (asked : Server S F U) × (reported : Server S F U) × (ds : List E) × (on_sy_status lib
            client msg m
          ≡ some asked)
        × (asked.write_data client ≡ record {
          target_wsi = info.fileserver_wsi;
          type = sy_status;
          content = lib.json.dumps (status_request lib id info.repo_name);
        })
        × (on_fs_status_ok lib v reply asked ≡ some reported)
        × (reported.write_data v ≡ record {
          target_wsi = client;
          type = sy_status_ok;
          content = lib.json.dumps (status_report lib id ds);
        })
        × ((n : Bytes)
            → first_status lib.json n ds
              ≡ code_of (
                  expected
                    (last_checksum lib.json filename client_checksum n own)
                    (first_checksum lib.json filename fs_checksum n theirs)))
  unfolding set_field
  status_round json_laws m msg reply client v d info id own theirs laws h small has_id_c has_own
        has_id_f has_theirs summed_c summed_f =
      let (stored, kept, summed_s, sums) = checksum_elements_kept lib json_laws own summed_c in
      let (joined, ds, join, compared, status) =
        diff_expected lib.json json_laws theirs stored summed_f summed_s in
      let (kept_files, stores_files) = file_elements-compared lib joined ds compared in
      let (kept_diff, stores_diff) =
        diff_elements-reported lib json_laws ds
          (diff_array-IsReported lib.json json_laws joined ds compared) in
      let holds = laws.find-holds (has_id lib id) d m.sessions h.found in
      let step : (change : SessionDoc E → SessionDoc E) (s t : S) (e : SessionDoc E)
          → lib.sessions.find (has_id lib id) s ≡ some e
          → has_id lib id (change e) ≡ true
          → lib.sessions.update (has_id lib id) change s ≡ some t
          → lib.sessions.find (has_id lib id) t ≡ some (change e) =
        λ change s t e there good took.
          laws.find-update (has_id lib id) change e s t took there good in
      let (s1, u1) = h.takes (λ e. record e { state = sy_status }) m.sessions d h.found in
      let f1 = step (λ e. record e { state = sy_status }) m.sessions s1 d h.found holds u1 in
      let (s2, u2) = h.takes (λ e. record e { files = stored }) s1 _ f1 in
      let f2 = step (λ e. record e { files = stored }) s1 s2 _ f1 holds u2 in
      let (s3, u3) = h.takes (λ e. record e { client_wsi = to_int32 client }) s2 _ f2 in
      let (asks, found3) =
        status_asked lib m msg client d info id own stored s1 s2 s3 laws h.found h.read has_id_c
          has_own kept u1 u2 u3 h.request_fits in
      let (s4, u4) = h.takes (λ e. record e { files = kept_files }) s3 _ found3 in
      let f4 = step (λ e. record e { files = kept_files }) s3 s4 _ found3 holds u4 in
      let (s5, u5) = h.takes (λ e. record e { diff = kept_diff }) s4 _ f4 in
      let request = lib.json.dumps (status_request lib id info.repo_name) in
      let asked =
        posted lib client info.fileserver_wsi sy_status request (record m { sessions = s3 }) in
      let (room, loaded) = h.room stored kept in
      let reports =
        status_reported asked reply client v d info id stored theirs joined ds kept_files kept_diff
          s4 s5 laws small found3 h.read room loaded has_id_f has_theirs join compared stores_files
          stores_diff u4 u5 (h.report_fits stored joined ds kept join compared) in
      (
        asked,
        posted lib v client sy_status_ok (lib.json.dumps (status_report lib id ds))
            (record asked { sessions = s5 }),
        ds,
        asks,
        posted-write_data lib client info.fileserver_wsi sy_status request
            (record m { sessions = s3 }),
        reports,
        posted-write_data lib v client sy_status_ok (lib.json.dumps (status_report lib id ds))
            (record asked { sessions = s5 }),
        λ n. status n ∙ rw (sums n) refl,
      )
