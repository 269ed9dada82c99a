-- ===== src/Client/Sessions.antt =====
-- The sessions that sy_init and sy_connect open, and the difference that sy_status gives.
use librtcdc.Base.{ℕ, ◌<◌, ◌≡◌, refl, none, some, List, ◌∷◌, ◌++◌, Bytes, All, lt→ltb, length}
use librtcdc.Checksum.{Md5}
use librtcdc.Meta.Json.{
  Json, text, array, text_of, number_of, array_of, put_text, metadata_type, files, client_checksum,
}
use librtcdc.Meta.Json as Json
use librtcdc.Meta.Store.{code, UriInfo}
use librtcdc.Meta.Store as Store
use librtcdc.Meta.Database.{Driver, Server, strcpy, repo_name_size, get_uri}
use librtcdc.Meta.Server.{write_data_size, on_sy_connect, connect_uri}
use librtcdc.Protocol.{Disk, listed_files, SessionDiff, session_diff}
use librtcdc.Client.{Reason, client_receive}
use librtcdc.Client.Calls.{
  Session, local_repo, init_message, finish_init, sy_init, connect_message, finish_connect,
  sy_connect, status_message, finish_status, sy_status,
}
use librtcdc.Client.Waiting.{
  IsQuiet, init_call, connect_call, status_call, request_answered, request_waits,
}

module _ {E : Type 0} (json : Json E) where
  -- A message of the type has arrived, after callbacks that keep no answer, and fits.
  pub record IsAnswer (type : Store.MetadataType) (raw : Bytes) (msg : E) (before : List Reason)
      : Type 0 where
    pub loaded : json.loads raw ≡ some msg
    pub has_type : number_of json msg metadata_type ≡ some (code type)
    pub room : length raw < write_data_size
    pub quiet : All (IsQuiet json) before

  -- sy_init ends when SY_INIT_OK has arrived, and the session has the id and the code of the answer, and
  -- the name and the path of the call.
  pub init_opens :
      (wsi : ℕ) (repo path key token_text raw id uri : Bytes) (msg : E) (before after : List Reason)
      (s : Session)
      → IsAnswer Store.sy_init_ok raw msg before
      → length (json.dumps (init_message json repo key token_text)) < write_data_size
      → text_of json msg Json.session_id ≡ some id
      → text_of json msg Json.uri_code ≡ some uri
      → length repo < repo_name_size
      → sy_init json wsi repo path key token_text (before ++ client_receive raw ∷ after) s
        ≡ some (
            some (record {
              session_id = some id;
              uri_code = some uri;
              local_repo_path = some path;
              repo_name = repo;
            }))
  unfolding sy_init finish_init strcpy
  init_opens wsi repo path key token_text raw id uri msg before after s answer asked has_id has_uri
        short =
      let replied =
        request_answered json wsi Store.sy_init Store.sy_init_ok
          (json.dumps (init_message json repo key token_text)) raw msg before after init_call asked
          answer.quiet answer.loaded answer.has_type answer.room in
      let loaded = answer.loaded in
      let fits = lt→ltb (length repo) repo_name_size short in
      rw (replied, loaded, has_id, has_uri, fits) refl

  -- sy_status ends when SY_STATUS_OK has arrived, and gives the difference that its array stands for.
  pub status_returned :
      {C : Type 0} (md5 : Md5 C) (disk : Disk) (wsi : ℕ) (path raw : Bytes) (es : List E) (msg : E)
      (compared : SessionDiff) (before after : List Reason) (s : Session)
      → IsAnswer Store.sy_status_ok raw msg before
      → s.local_repo_path ≡ some path
      → listed_files json md5 disk.open_read client_checksum local_repo (disk.opendir path)
        ≡ some es
      → length (json.dumps (status_message json s es)) < write_data_size
      → session_diff json (array_of json msg files) ≡ some compared
      → sy_status json md5 disk wsi (before ++ client_receive raw ∷ after) s ≡ some (some compared)
  unfolding sy_status finish_status
  status_returned md5 disk wsi path raw es msg compared before after s answer has_path listed asked
        read =
      let replied =
        request_answered json wsi Store.sy_status Store.sy_status_ok
          (json.dumps (status_message json s es)) raw msg before after status_call asked
          answer.quiet answer.loaded answer.has_type answer.room in
      let loaded = answer.loaded in simp (has_path, listed, replied, loaded, read)

-- The metadata server sends nothing in answer to SY_CONNECT with a code that it does not know, and while no
-- answer arrives, sy_connect does not end: whatever other callbacks run, the closing of the connection
-- included, it still waits.
pub unknown_uri_waits :
    {E S F U : Type 0} (lib : Driver E S F U) (oid uri path key token_text : Bytes)
    (wsi server_wsi : ℕ) (msg : E) (m : Server S F U) (rs : List Reason) (s : Session)
    → text_of lib.json msg Json.uri_code ≡ some uri
    → get_uri lib uri m ≡ some none
    → length (lib.json.dumps (connect_message lib.json uri key token_text)) < write_data_size
    → All (IsQuiet lib.json) rs
    → (on_sy_connect lib oid server_wsi msg m ≡ some m)
      × (sy_connect lib.json wsi uri path key token_text rs s ≡ some none)
unfolding on_sy_connect connect_uri sy_connect finish_connect
unknown_uri_waits lib oid uri path key token_text wsi server_wsi msg m rs s has_uri unknown asked
      quiet =
    let waited =
      request_waits lib.json wsi Store.sy_connect Store.sy_connect_ok
        (lib.json.dumps (connect_message lib.json uri key token_text)) rs connect_call asked
        quiet in
    (rw (has_uri, unknown) refl, rw waited refl)
