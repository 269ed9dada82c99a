-- ===== src/Meta/Repositories.antt =====
-- A repository from its creation to the first client that connects to it.
use librtcdc.Base.{
  ℕ, ◌<◌, ◌≡◌, refl, none, some, [], Bytes, length, bytes_eq, bytes_eq_refl, lt→ltb, arith, Bool,
  true,
}
use librtcdc.Meta.Json.{put_text, text_of, text, session_id, uri_code}
use librtcdc.Meta.Store.{
  sy_init_ok, sy_connect, sy_connect_ok, SessionDoc, SessionInfo, UriInfo, IsCollection, to_int32,
  of_int32,
}
use librtcdc.Meta.Database.{
  Driver, Server, has_id, id_size, repo_name_size, strcpy, session_info, insert_filesys,
  insert_session, set_field, set_session, update_session, get_session, uri_info, get_uri,
}
use librtcdc.Meta.Database as Database
use librtcdc.Meta.Server.{
  message, write_data_size, on_fs_init_ok, init_session, on_sy_connect, connect_uri,
}
use librtcdc.Meta.Routing.{posted, post_fits, posted-write_data, get_session_found}

session_repo_fits :
    {E S F U : Type 0} (lib : Driver E S F U) (id : Bytes) (d : SessionDoc E) (info : SessionInfo)
    → session_info lib id d ≡ some info
    → length info.repo_name < repo_name_size
unfolding session_info strcpy
session_repo_fits lib id d info h = ground arith

module _ {E S F U : Type 0} (lib : Driver E S F U) where
  abbrev at_code : Bytes → UriInfo → Bool
  at_code code d = bytes_eq d.uri_code code

  -- The reply to the client that has created the repository, and the one to a client that connects.
  abbrev pub created_reply : Bytes → Bytes → Bytes
  created_reply uri id = lib.json.dumps (
      lib.json.put (lib.json.put (message lib sy_init_ok) uri_code (text uri)) session_id (text id))

  abbrev pub connected_reply : Bytes → Bytes
  connected_reply id =
      lib.json.dumps (put_text lib.json (message lib sy_connect_ok) session_id (some id))

  -- The file server's answer is about a session that stands, `uri` is a new object id, and the database
  -- takes the repository and the new state.
  pub record IsCreation (m : Server S F U) (msg : E) (uri id : Bytes) (d : SessionDoc E)
      (info : SessionInfo) (uris : U) (sessions : S) : Type 0 where
    pub found : lib.sessions.find (has_id lib id) m.sessions ≡ some d
    pub read : session_info lib id d ≡ some info
    pub has_session : text_of lib.json msg session_id ≡ some id
    pub short : length uri < id_size
    pub unknown : lib.uris.find (at_code uri) m.uris ≡ none
    pub listed :
        lib.uris.insert
          (record {
            uri_code = uri;
            fileserver_wsi = to_int32 info.fileserver_wsi;
            repo_name = info.repo_name;
          })
          m.uris
        ≡ some uris
    pub updates :
        lib.sessions.update (has_id lib id) (λ e. record e { state = sy_init_ok }) m.sessions
        ≡ some sessions
    pub fits : length (created_reply uri id) < write_data_size

  -- The server afterwards, but for the reply.
  abbrev listed_in : Server S F U → U → S → Server S F U
  listed_in m uris sessions = record m { uris = uris; sessions = sessions }

  update_state :
      (id : Bytes) (m : Server S F U) (t : S)
      → lib.sessions.update (has_id lib id) (λ e. record e { state = sy_init_ok }) m.sessions
        ≡ some t
      → update_session lib id (Database.state sy_init_ok) m ≡ some (true, record m { sessions = t })
  unfolding update_session set_field set_session
  update_state id m t h = ground arith

  on_fs_init_ok_posts :
      (m : Server S F U) (v : ℕ) (msg : E) (uri id : Bytes) (d : SessionDoc E) (info : SessionInfo)
      (uris : U) (sessions : S)
      → IsCreation m msg uri id d info uris sessions
      → on_fs_init_ok lib uri v msg m
        ≡ some (
            posted lib v info.client_wsi sy_init_ok
              (created_reply uri id)
              (listed_in m uris sessions))
  unfolding on_fs_init_ok init_session strcpy insert_filesys
  on_fs_init_ok_posts m v msg uri id d info uris sessions h =
      let has = h.has_session in
      let got = get_session_found lib id d info m h.found h.read in
      let short = lt→ltb (length uri) id_size h.short in
      let listed = h.listed in
      let updated = update_state id (record m { uris = uris }) sessions h.updates in
      let sent =
        post_fits lib v info.client_wsi sy_init_ok (created_reply uri id)
          (listed_in m uris sessions) h.fits in
      ground (arith, has, got, short, listed, updated, sent)

  get_uri_found :
      (uri : Bytes) (d : UriInfo) (m : Server S F U)
      → lib.uris.find (at_code uri) m.uris ≡ some d
      → length d.repo_name < repo_name_size
      → length uri < id_size
      → get_uri lib uri m
        ≡ some (
            some (record {
              uri_code = uri;
              fileserver_wsi = of_int32 d.fileserver_wsi;
              repo_name = d.repo_name;
            }))
  unfolding get_uri uri_info strcpy
  get_uri_found uri d m found repo short =
      let fits = lt→ltb (length d.repo_name) repo_name_size repo in
      let fits_too = lt→ltb (length uri) id_size short in
      rw (get_uri, found) (ground (arith, fits, fits_too))

  -- When a file server has created the repository of a session, the client of that session is told
  -- its new code, and any client that then connects with the code gets a new session, with the same
  -- repository and the same file server (at an address below 2^31), and is told the session's id;
  -- provided that the database takes the entries and the replies fit the buffer.
  pub created_connects :
      (m : Server S F U) (v client : ℕ) (msg ask : E) (uri id new_id : Bytes) (d : SessionDoc E)
      (info : SessionInfo) (uris : U) (sessions more : S)
      → IsCollection lib.uris
      → IsCreation m msg uri id d info uris sessions
      → info.fileserver_wsi < 2147483648
      → text_of lib.json ask uri_code ≡ some uri
      → lib.sessions.insert
          (record {
            session_id = new_id;
            client_wsi = to_int32 client;
            fileserver_wsi = to_int32 info.fileserver_wsi;
            repo_name = info.repo_name;
            state = sy_connect;
            files = [];
            diff = [];
          })
          sessions
        ≡ some more
      → length (connected_reply new_id) < write_data_size
      → (created : Server S F U) × (connected : Server S F U) × (on_fs_init_ok lib uri v msg m
          ≡ some created)
        × (created.write_data v ≡ record {
          target_wsi = info.client_wsi;
          type = sy_init_ok;
          content = created_reply uri id;
        })
        × (on_sy_connect lib new_id client ask created ≡ some connected)
        × (connected.write_data client ≡ record {
          target_wsi = client;
          type = sy_connect_ok;
          content = connected_reply new_id;
        })
        × (connected.sessions ≡ more)
  unfolding on_sy_connect connect_uri insert_session
  created_connects m v client msg ask uri id new_id d info uris sessions more laws h small has
        inserted fits =
      let entry : UriInfo = record {
        uri_code = uri;
        fileserver_wsi = to_int32 info.fileserver_wsi;
        repo_name = info.repo_name;
      } in
      let created =
        posted lib v info.client_wsi sy_init_ok (created_reply uri id)
          (listed_in m uris sessions) in
      let later = record created { sessions = more } in
      let found =
        laws.find-insert_new (at_code uri) entry m.uris uris h.listed h.unknown
          (bytes_eq_refl uri) in
      let repo = session_repo_fits lib id d info h.read in
      let got = get_uri_found uri entry created found repo h.short in
      let back : of_int32 (to_int32 info.fileserver_wsi) ≡ info.fileserver_wsi = ground arith in
      let sent = post_fits lib client client sy_connect_ok (connected_reply new_id) later fits in
      (
        created,
        posted lib client client sy_connect_ok (connected_reply new_id) later,
        on_fs_init_ok_posts m v msg uri id d info uris sessions h,
        posted-write_data lib v info.client_wsi sy_init_ok (created_reply uri id)
            (listed_in m uris sessions),
        ground (arith, has, got, back, inserted, sent),
        posted-write_data lib client client sy_connect_ok (connected_reply new_id) later,
        refl,
      )
