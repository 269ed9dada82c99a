-- ===== src/Client/Calls.antt =====
-- The calls of APIs/cli/sy.c for sessions: sy_init, sy_connect, sy_status, sy_cleanup. What json_unpack does not
-- find, and a text that does not fit its buffer, are `none`; `some none` is a call that still waits.
use librtcdc.Base.{ℕ, Option, none, some, List, [], Bytes, codes, ◌>>=◌}
use librtcdc.Checksum.{Md5}
use librtcdc.Meta.Json.{
  Key, Json, text, array, text_of, array_of, put_text, repo_name, api_key, token, session_id,
  uri_code, files, client_checksum,
}
use librtcdc.Meta.Json as Json
use librtcdc.Meta.Store.{MetadataType, sy_init_ok, sy_connect_ok, sy_status_ok, sy_cleanup_ok}
use librtcdc.Meta.Store as Store
use librtcdc.Meta.Database.{strcpy, repo_name_size}
use librtcdc.Protocol.{Disk, typed, listed_files, SessionDiff, session_diff}
use librtcdc.Client.{Reason, request}

-- struct sy_session_t; NULL is none.
pub record Session : Type 0 where
  pub session_id : Option Bytes
  pub uri_code : Option Bytes
  pub local_repo_path : Option Bytes
  pub repo_name : Bytes

-- "/home/uniray/local_repo/", LOCAL_REPO_PATH
abbrev pub local_repo : Bytes
local_repo = codes "/home/uniray/local_repo/"

unfoldable pub sy_default_session : Session
sy_default_session = record {
  session_id = none;
  uri_code = none;
  local_repo_path = none;
  repo_name = [];
}

unfoldable pub sy_default_diff : SessionDiff
sy_default_diff = record { num = 0; files_diff = [] }

module _ {E : Type 0} (json : Json E) where
  abbrev pub init_message : (repo key token_text : Bytes) → E
  init_message repo key token_text =
      json.put
        (json.put (json.put (typed json Store.sy_init) repo_name (text repo)) api_key (text key))
        token (text token_text)

  -- From the answer on.
  unfoldable pub finish_init :
      (repo path : Bytes) → Option Bytes → Session → Option (Option Session)
  finish_init repo path none s = some none
  finish_init repo path (some answer) s = do
    msg ← json.loads answer
    id ← text_of json msg Json.session_id
    uri ← text_of json msg Json.uri_code
    name ← strcpy repo_name_size repo
    some (
        some (record {
          session_id = some id;
          uri_code = some uri;
          local_repo_path = some path;
          repo_name = name;
        }))

  unfoldable pub sy_init :
      ℕ → (repo path key token_text : Bytes) → List Reason → Session → Option (Option Session)
  sy_init wsi repo path key token_text rs s = do
    reply ←
        request json wsi Store.sy_init sy_init_ok (json.dumps (init_message repo key token_text)) rs
    finish_init repo path reply.0 s

  abbrev pub connect_message : (uri key token_text : Bytes) → E
  connect_message uri key token_text =
      json.put
        (json.put (json.put (typed json Store.sy_connect) uri_code (text uri)) api_key (text key))
        token (text token_text)

  -- The argument, unless the answer has a code.
  abbrev pub or_argument : Option Bytes → Bytes → Bytes
  or_argument none uri = uri
  or_argument (some other) uri = other

  unfoldable pub finish_connect :
      (uri path : Bytes) → Option Bytes → Session → Option (Option Session)
  finish_connect uri path none s = some none
  finish_connect uri path (some answer) s = do
    msg ← json.loads answer
    id ← text_of json msg Json.session_id
    some (
        some (record s {
          session_id = some id;
          uri_code = some (or_argument (text_of json msg Json.uri_code) uri);
          local_repo_path = some path;
        }))

  unfoldable pub sy_connect :
      ℕ → (uri path key token_text : Bytes) → List Reason → Session → Option (Option Session)
  sy_connect wsi uri path key token_text rs s = do
    reply ←
        request json wsi Store.sy_connect sy_connect_ok
          (json.dumps (connect_message uri key token_text)) rs
    finish_connect uri path reply.0 s

  abbrev pub status_message : Session → List E → E
  status_message s es =
      json.put (put_text json (typed json Store.sy_status) Json.session_id s.session_id) files
        (array es)

  unfoldable pub finish_status : Option Bytes → Option (Option SessionDiff)
  finish_status none = some none
  finish_status (some answer) = do
    msg ← json.loads answer
    diff ← session_diff json (array_of json msg files)
    some (some diff)

  -- The session's directory is read, but the files are looked up under LOCAL_REPO_PATH.
  unfoldable pub sy_status :
      {C : Type 0} → Md5 C → Disk → ℕ → List Reason → Session → Option (Option SessionDiff)
  sy_status md5 disk wsi rs s = do
    path ← s.local_repo_path
    es ← listed_files json md5 disk.open_read client_checksum local_repo (disk.opendir path)
    reply ← request json wsi Store.sy_status sy_status_ok (json.dumps (status_message s es)) rs
    finish_status reply.0

  -- With a session. The session and the difference are freed.
  unfoldable pub sy_cleanup : ℕ → List Reason → Session → Option (Option MetadataType)
  sy_cleanup wsi rs s = do
    reply ←
        request json wsi Store.sy_cleanup sy_cleanup_ok
          (json.dumps (put_text json (typed json Store.sy_cleanup) Json.session_id s.session_id)) rs
    elim reply.0 [ none ↦ some none | some answer ↦ some (some sy_cleanup_ok) ]
