-- ===== src/Tests/Talking.antt =====
-- Objects that are written as texts and read back, and the calls of a client that are answered or not.
use librtcdc.Base.{
  ℕ, zero, suc, ◌≡◌, refl, Option, none, some, List, [], ◌∷◌, ◌++◌, Bytes, codes, arith, drop,
  length, ◌>>=◌, pos,
}
use librtcdc.Transfer.Lines.{take}
use librtcdc.Meta.Json.{Json, IsJson, text, number_of, session_id, repo_name}
use librtcdc.Meta.Store.{code, sy_init, sy_init_ok, fs_register}
use librtcdc.Protocol.{typed}
use librtcdc.Client.{
  Reason, client_established, client_writeable, closed, client_receive, request, answer_type,
}
use librtcdc.Client.Waiting.{init_call, writings, waiting, request_answered}
use librtcdc.FileServer.{Host}
use librtcdc.Tests.Objects.{
  Object, empty, with_member, a_text, a_number, an_array, key_code, key_at, all_keys, objects,
  objects-IsJson,
}

-- Texts and numbers; arrays are left out.
abbrev encode : Object → Bytes
encode empty = []
encode (with_member k (a_text t) e) = key_code k ∷ 0 ∷ length t ∷ (t ++ encode e)
encode (with_member k (a_number n) e) = key_code k ∷ 1 ∷ n ∷ encode e
encode (with_member k (an_array es) e) = encode e

abbrev decode : ℕ → Bytes → Option Object
decode zero raw = none
decode (suc fuel) [] = some empty
decode (suc fuel) (k ∷ []) = none
decode (suc fuel) (k ∷ tag ∷ []) = none
decode (suc fuel) (k ∷ zero ∷ n ∷ raw) = do
  e ← decode fuel (drop n raw)
  some (with_member (key_at k all_keys) (a_text (take n raw)) e)
decode (suc fuel) (k ∷ suc tag ∷ n ∷ raw) = do
  e ← decode fuel raw
  some (with_member (key_at k all_keys) (a_number n) e)

abbrev pub talking : Json Object
talking = record objects { dumps = encode; loads = λ raw. decode (suc (length raw)) raw }

pub talking-IsJson : IsJson talking
talking-IsJson = record {
  get-blank = objects-IsJson.get-blank;
  get-put = objects-IsJson.get-put;
  get-put_ne = objects-IsJson.get-put_ne;
}

abbrev ok_text : Bytes
ok_text = encode (typed talking sy_init_ok)

-- A message of another type comes first.
abbrev pub other_first : List Reason
other_first =
    client_established ∷ client_writeable ∷ client_receive (encode (typed talking fs_register)) ∷ []

request_answered_example :
    request talking 7 sy_init sy_init_ok
      (codes "init")
      (other_first ++ client_receive ok_text ∷ closed ∷ [])
    ≡ some (
      some ok_text,
      record {
        write_data = waiting 0 sy_init_ok ok_text;
        written = writings (waiting 7 sy_init (codes "init")) other_first;
      },
    )
unfolding code number_of answer_type
request_answered_example =
    request_answered talking 7 sy_init sy_init_ok (codes "init") ok_text (typed talking sy_init_ok)
      other_first (closed ∷ []) init_call (omega arith) (tt, (tt, ((_, _, refl, refl, refl), tt)))
      refl refl (omega arith)

-- A file server that has registered.
abbrev pub host : Host ℕ
host = record {
  write_data = some (record { target_wsi = 3; type = fs_register; content = codes "hello" });
  on_writable = [];
  written = [];
  made = [];
  works = [];
  fileserver_exit = pos 0;
}

abbrev init_request : Object
init_request =
    talking.put (talking.put talking.blank repo_name (text (codes "hhh"))) session_id
      (text (codes "5f"))
