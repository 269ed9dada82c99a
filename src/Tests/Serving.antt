-- ===== src/Tests/Serving.antt =====
-- A metadata server with one session, over lists.
use librtcdc.Base.{◌≡◌, refl, some, List, [], ◌∷◌, Bytes, codes, arith}
use librtcdc.Meta.Json.{text, session_id, repo_name, client_sdp, client_candidates, text_of}
use librtcdc.Meta.Store.{
  fs_upload_ready, sy_init, sy_upload, SessionDoc, SessionInfo, FileServer, UriInfo,
}
use librtcdc.Meta.Database.{Driver, Server, session_info, strcpy}
use librtcdc.Meta.Server.{no_data}
use librtcdc.Meta.Sync.{offer, on_sy_upload, on_fs_upload_ready}
use librtcdc.Meta.Callback.{on_writeable}
use librtcdc.Meta.Replies.{IsUpload, upload_answered}
use librtcdc.Meta.Writing.{written_again}
use librtcdc.Tests.Objects.{Object, objects, documents, documents-IsCollection}

abbrev pub lib : Driver Object (List (SessionDoc Object)) (List FileServer) (List UriInfo)
lib = record { json = objects; sessions = documents; servers = documents; uris = documents }

abbrev pub session : SessionDoc Object
session = record {
  session_id = codes "s1";
  client_wsi = 4096;
  fileserver_wsi = 8192;
  repo_name = codes "repo";
  state = sy_init;
  files = [];
  diff = [];
}

abbrev pub serving : Server (List (SessionDoc Object)) (List FileServer) (List UriInfo)
serving = record {
  sessions = session ∷ [];
  servers = [];
  uris = [];
  write_data = λ wsi. no_data;
  on_writable = [];
  written = [];
}

abbrev pub about : Bytes → Object
about id = objects.put objects.blank session_id (text id)

abbrev upload : Object
upload =
    objects.put (objects.put (about (codes "s1")) client_sdp (text (codes "v=0"))) client_candidates
      (text (codes "c"))

abbrev pub info : SessionInfo
info = record {
  fileserver_wsi = 8192;
  client_wsi = 4096;
  repo_name = codes "repo";
  session_id = codes "s1";
  files = codes "[]";
  diff = codes "[]";
}

upload-IsUpload :
    IsUpload lib serving upload 5000 session info
      (codes "s1")
      (codes "v=0")
      (codes "c")
      (record session { client_wsi = 5000 } ∷ [])
unfolding text_of session_info strcpy
upload-IsUpload = record {
  found = refl;
  read = refl;
  has_session = refl;
  has_sdp = refl;
  has_candidates = refl;
  updates = refl;
  fits = omega arith;
}

about-session_id : (id : Bytes) → text_of objects (about id) session_id ≡ some id
unfolding text_of
about-session_id id = refl

upload_answered_example :
    (asked : Server (List (SessionDoc Object)) (List FileServer) (List UriInfo))
    × (answered : Server (List (SessionDoc Object)) (List FileServer) (List UriInfo))
    × (on_sy_upload lib 5000 upload serving ≡ some asked)
    × (asked.write_data 5000 ≡ record {
      target_wsi = 8192;
      type = sy_upload;
      content =
          objects.dumps (offer lib sy_upload (codes "s1") (codes "repo") (codes "v=0") (codes "c"));
    })
    × (on_fs_upload_ready lib 8192 (about (codes "s1")) (codes "{sdp}") asked ≡ some answered)
    × (answered.write_data 8192
        ≡ record { target_wsi = 5000; type = fs_upload_ready; content = codes "{sdp}" })
upload_answered_example =
    upload_answered lib serving upload (about (codes "s1")) 5000 8192 session info (codes "s1")
      (codes "v=0") (codes "c") (codes "{sdp}") (record session { client_wsi = 5000 } ∷ [])
      documents-IsCollection upload-IsUpload (omega arith) (about-session_id (codes "s1"))
      (omega arith)

-- A reply waits for the client.
abbrev waiting : Server (List (SessionDoc Object)) (List FileServer) (List UriInfo)
waiting = record serving {
  write_data = λ wsi. record { target_wsi = 4096; type = fs_upload_ready; content = codes "hi" };
}

written_again_example :
    (on_writeable lib 8192 (on_writeable lib 8192 waiting)).written
    ≡ (4096, codes "hi") ∷ (0, codes "hi") ∷ []
written_again_example = written_again lib 8192 waiting (λ e. cc)
