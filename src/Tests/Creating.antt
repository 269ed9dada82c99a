-- ===== src/Tests/Creating.antt =====
-- A repository that is created and then opened by a second client.
use librtcdc.Base.{◌≡◌, refl, some, List, [], ◌∷◌, codes, arith}
use librtcdc.Meta.Json.{text, text_of, uri_code}
use librtcdc.Meta.Store.{sy_init_ok, sy_connect, sy_connect_ok, SessionDoc, FileServer, UriInfo}
use librtcdc.Meta.Database.{Server, session_info, strcpy}
use librtcdc.Meta.Server.{on_fs_init_ok, on_sy_connect}
use librtcdc.Meta.Repositories.{IsCreation, created_reply, connected_reply, created_connects}
use librtcdc.Tests.Objects.{Object, objects, documents-IsCollection}
use librtcdc.Tests.Serving.{lib, session, serving, about, info}

abbrev repository : UriInfo
repository = record { uri_code = codes "u1"; fileserver_wsi = 8192; repo_name = codes "repo" }

abbrev ready : SessionDoc Object
ready = record session { state = sy_init_ok }

abbrev second : SessionDoc Object
second = record session { session_id = codes "s2"; client_wsi = 6000; state = sy_connect }

serving-IsCreation :
    IsCreation lib serving
      (about (codes "s1"))
      (codes "u1")
      (codes "s1")
      session
      info
      (repository ∷ [])
      (ready ∷ [])
unfolding text_of session_info strcpy
serving-IsCreation = record {
  found = refl;
  read = refl;
  has_session = refl;
  short = omega arith;
  unknown = refl;
  listed = refl;
  updates = refl;
  fits = omega arith;
}

abbrev asking : Object
asking = objects.put objects.blank uri_code (text (codes "u1"))

asking-uri_code : text_of objects asking uri_code ≡ some (codes "u1")
unfolding text_of
asking-uri_code = refl

created_connects_example :
    (created : Server (List (SessionDoc Object)) (List FileServer) (List UriInfo))
    × (connected : Server (List (SessionDoc Object)) (List FileServer) (List UriInfo))
    × (on_fs_init_ok lib (codes "u1") 8192 (about (codes "s1")) serving ≡ some created)
    × (created.write_data 8192 ≡ record {
      target_wsi = 4096;
      type = sy_init_ok;
      content = created_reply lib (codes "u1") (codes "s1");
    })
    × (on_sy_connect lib (codes "s2") 6000 asking created ≡ some connected)
    × (connected.write_data 6000 ≡ record {
      target_wsi = 6000;
      type = sy_connect_ok;
      content = connected_reply lib (codes "s2");
    })
    × (connected.sessions ≡ ready ∷ second ∷ [])
created_connects_example =
    created_connects lib serving 8192 6000 (about (codes "s1")) asking (codes "u1") (codes "s1")
      (codes "s2") session info (repository ∷ []) (ready ∷ []) (ready ∷ second ∷ [])
      documents-IsCollection serving-IsCreation (omega arith) asking-uri_code refl (omega arith)
