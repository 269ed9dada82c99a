-- ===== src/Tests/Calling.antt =====
-- Calls of a client that open a session, wait, and read a difference.
use librtcdc.Base.{◌≡◌, refl, none, some, [], ◌∷◌, ◌++◌, codes, arith}
use librtcdc.Meta.Json.{text, session_id, uri_code, text_of, number_of}
use librtcdc.Meta.Store.{code, sy_init_ok}
use librtcdc.Meta.Database.{get_uri}
use librtcdc.Meta.Server.{on_sy_connect}
use librtcdc.Protocol.{typed}
use librtcdc.Client.{client_receive, closed, answer_type}
use librtcdc.Client.Calls.{sy_default_session, sy_init, sy_connect, local_repo}
use librtcdc.Client.Sessions.{IsAnswer, init_opens, unknown_uri_waits}
use librtcdc.Tests.Objects.{Object, objects}
use librtcdc.Tests.Serving.{lib, serving}
use librtcdc.Tests.Talking.{talking, other_first}

abbrev opened_session : Object
opened_session =
    talking.put (talking.put (typed talking sy_init_ok) session_id (text (codes "5f"))) uri_code
      (text (codes "60"))

opened_session-IsAnswer :
    IsAnswer talking sy_init_ok (talking.dumps opened_session) opened_session other_first
unfolding code number_of answer_type
opened_session-IsAnswer = record {
  loaded = refl;
  has_type = refl;
  room = omega arith;
  quiet = (tt, (tt, ((_, _, refl, refl, refl), tt)));
}

init_opens_example :
    sy_init talking 7
      (codes "hhh")
      local_repo
      (codes "key")
      (codes "token")
      (other_first ++ client_receive (talking.dumps opened_session) ∷ closed ∷ [])
      sy_default_session
    ≡ some (
        some (record {
          session_id = some (codes "5f");
          uri_code = some (codes "60");
          local_repo_path = some local_repo;
          repo_name = codes "hhh";
        }))
unfolding text_of code
init_opens_example =
    init_opens talking 7 (codes "hhh") local_repo (codes "key") (codes "token")
      (talking.dumps opened_session) (codes "5f") (codes "60") opened_session other_first
      (closed ∷ []) sy_default_session opened_session-IsAnswer (omega arith) refl refl (omega arith)

unknown_uri_waits_example :
    (on_sy_connect lib
        (codes "61")
        3
        (objects.put objects.blank uri_code (text (codes "60")))
        serving
      ≡ some serving)
    × (sy_connect objects 7
          (codes "60")
          local_repo
          (codes "key")
          (codes "token")
          (closed ∷ [])
          sy_default_session
        ≡ some none)
unfolding text_of get_uri
unknown_uri_waits_example =
    unknown_uri_waits lib (codes "61") (codes "60") local_repo (codes "key") (codes "token") 7 3
      (objects.put objects.blank uri_code (text (codes "60"))) serving (closed ∷ [])
      sy_default_session refl refl (omega arith) (tt, tt)
