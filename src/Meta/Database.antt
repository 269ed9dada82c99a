-- ===== src/Meta/Database.antt =====
-- The functions of APIs/ms/metadata_server.c on the database, one each. A string that does not fit the
-- field into which strcpy copies it, and a value that json_unpack does not find, are `none`.
use librtcdc.Base.{
  ℕ, Bool, true, false, Option, none, some, List, [], ◌∷◌, Bytes, if◌then◌else◌, ◌==◌, ltb, length,
  bytes_eq, ◌>>=◌,
}
use librtcdc.Meta.Json.{Key, Json, Value, text, number, text_of, number_of}
use librtcdc.Meta.Json as Json
use librtcdc.Meta.Store.{
  MetadataType, Collection, FileServer, UriInfo, SessionDoc, SessionInfo, to_int32, of_int32,
}

-- struct lwst_writedata_t; the wsi 0 is NULL.
pub record WriteData : Type 0 where
  pub target_wsi : ℕ
  pub type : MetadataType
  pub content : Bytes  -- data

-- The libraries that the server calls.
pub record Driver (E S F U : Type 0) : Type 0 where
  pub json : Json E
  pub sessions : Collection (SessionDoc E) S
  pub servers : Collection FileServer F
  pub uris : Collection UriInfo U

-- The state of the server: the three collections; for each connection its write data; the connections
-- for which a writeable callback was asked; and what was written, each with its target.
pub record Server (S F U : Type 0) : Type 0 where
  pub sessions : S
  pub servers : F
  pub uris : U
  pub write_data : ℕ → WriteData
  pub on_writable : List ℕ
  pub written : List (ℕ × Bytes)

-- The fields that update_session knows.
pub data Field (E : Type 0) : Type 0 where
  client_wsi : ℕ → Field E
  state : MetadataType → Field E
  client_checksum files diff : List E → Field E
  other : Field E

abbrev pub id_size : ℕ
id_size = 32

abbrev pub repo_name_size : ℕ
repo_name_size = 32

-- DATASIZE of APIs/ms/ms_struct.h
abbrev pub data_size : ℕ
data_size = 1024

-- strcpy into an array of that size
unfoldable pub strcpy : ℕ → Bytes → Option Bytes
strcpy size source = if ltb (length source) size then some source else none

module _ {E S F U : Type 0} (lib : Driver E S F U) where
  unfoldable pub delete_fileserver : ℕ → Server S F U → Server S F U
  delete_fileserver wsi m = record m {
    servers = lib.servers.remove (λ d. d.wsi == to_int32 wsi) m.servers;
  }

  -- The query of the sessions by their id.
  abbrev pub has_id : Bytes → SessionDoc E → Bool
  has_id id d = bytes_eq d.session_id id

  unfoldable pub delete_session : Bytes → Server S F U → Server S F U
  delete_session id m = record m { sessions = lib.sessions.remove (has_id id) m.sessions }

  unfoldable pub insert_fileserver : Bytes → ℕ → Server S F U → Bool × Server S F U
  insert_fileserver name wsi m =
      elim (lib.servers.insert (record { fileserver_name = name; wsi = to_int32 wsi }) m.servers) [
        | none ↦ (false, m)
        | some servers ↦ (true, record m { servers = servers })
      ]

  -- `oid` is the text of the new object id. NULL is returned where the insertion fails.
  unfoldable pub insert_session :
      (oid : Bytes)
      → (fileserver client : ℕ) → Bytes
      → MetadataType
      → Server S F U
      → Option Bytes × Server S F U
  insert_session oid fileserver client repo_name status m =
      elim (lib.sessions.insert
        (record {
          session_id = oid;
          client_wsi = to_int32 client;
          fileserver_wsi = to_int32 fileserver;
          repo_name = repo_name;
          state = status;
          files = [];
          diff = [];
        })
        m.sessions) [
          | none ↦ (none, m)
          | some sessions ↦ (some oid, record m { sessions = sessions })
        ]

  unfoldable pub insert_filesys : UriInfo → Server S F U → Bool × Server S F U
  insert_filesys repo m =
      elim (lib.uris.insert (record repo { fileserver_wsi = to_int32 repo.fileserver_wsi })
        m.uris) [ none ↦ (false, m) | some uris ↦ (true, record m { uris = uris }) ]

  -- The loops over the array of a field: the elements with just the keys that are unpacked.
  unfoldable pub checksum_elements : List E → Option (List E)
  checksum_elements [] = some []
  checksum_elements (e ∷ es) = do
    rest ← checksum_elements es
    name ← text_of lib.json e Json.filename
    client ← text_of lib.json e Json.client_checksum
    some (
        lib.json.put (lib.json.put lib.json.blank Json.filename (text name)) Json.client_checksum
          (text client)
        ∷ rest)

  unfoldable pub file_elements : List E → Option (List E)
  file_elements [] = some []
  file_elements (e ∷ es) = do
    rest ← file_elements es
    name ← text_of lib.json e Json.filename
    client ← text_of lib.json e Json.client_checksum
    fs ← text_of lib.json e Json.fs_checksum
    some (
        lib.json.put
          (lib.json.put (lib.json.put lib.json.blank Json.filename (text name)) Json.client_checksum
            (text client))
          Json.fs_checksum (text fs)
        ∷ rest)

  unfoldable pub diff_elements : List E → Option (List E)
  diff_elements [] = some []
  diff_elements (e ∷ es) = do
    rest ← diff_elements es
    name ← text_of lib.json e Json.filename
    status ← number_of lib.json e Json.dirty
    some (
        lib.json.put (lib.json.put lib.json.blank Json.filename (text name)) Json.dirty
          (number status)
        ∷ rest)

  -- The `$set` of a field; `some none` where the field is not known.
  unfoldable pub set_field : Field E → Option (Option (SessionDoc E → SessionDoc E))
  set_field (client_wsi wsi) = some (some (λ d. record d { client_wsi = to_int32 wsi }))
  set_field (state s) = some (some (λ d. record d { state = s }))
  set_field (client_checksum es) = do
    rebuilt ← checksum_elements es
    some (some (λ d. record d { files = rebuilt }))
  set_field (files es) = do
    rebuilt ← file_elements es
    some (some (λ d. record d { files = rebuilt }))
  set_field (diff es) = do
    rebuilt ← diff_elements es
    some (some (λ d. record d { diff = rebuilt }))
  set_field other = some none

  unfoldable pub set_session :
      Bytes → Option (SessionDoc E → SessionDoc E) → Server S F U → Bool × Server S F U
  set_session id none m = (false, m)
  set_session id (some f) m = elim (lib.sessions.update (has_id id) f m.sessions) [
    | none ↦ (false, m)
    | some sessions ↦ (true, record m { sessions = sessions })
  ]

  unfoldable pub update_session : Bytes → Field E → Server S F U → Option (Bool × Server S F U)
  update_session id field m = do change ← set_field field; some (set_session id change m)

  -- A session with the copies that the structure holds.
  unfoldable pub session_info : Bytes → SessionDoc E → Option SessionInfo
  session_info id d = do
    repo ← strcpy repo_name_size d.repo_name
    file_text ← strcpy data_size (lib.json.dumps_array d.files)
    diff_text ← strcpy data_size (lib.json.dumps_array d.diff)
    own_id ← strcpy id_size id
    some (record {
      fileserver_wsi = of_int32 d.fileserver_wsi;
      client_wsi = of_int32 d.client_wsi;
      repo_name = repo;
      session_id = own_id;
      files = file_text;
      diff = diff_text;
    })

  -- `some none` is the NULL that is returned for an id that no session has.
  unfoldable pub get_session : Bytes → Server S F U → Option (Option SessionInfo)
  get_session id m = elim (lib.sessions.find (has_id id) m.sessions) [
    | none ↦ some none
    | some d ↦ do info ← session_info id d; some (some info)
  ]

  unfoldable pub uri_info : Bytes → UriInfo → Option UriInfo
  uri_info code d = do
    repo ← strcpy repo_name_size d.repo_name
    own_code ← strcpy id_size code
    some (record {
      uri_code = own_code;
      fileserver_wsi = of_int32 d.fileserver_wsi;
      repo_name = repo;
    })

  unfoldable pub get_uri : Bytes → Server S F U → Option (Option UriInfo)
  get_uri code m = elim (lib.uris.find (λ d. bytes_eq d.uri_code code) m.uris) [
    | none ↦ some none
    | some d ↦ do info ← uri_info code d; some (some info)
  ]

  unfoldable pub get_wsi : Bytes → Server S F U → Option ℕ
  get_wsi name m = elim (lib.servers.find (λ d. bytes_eq d.fileserver_name name) m.servers) [
    | none ↦ none
    | some d ↦ some (of_int32 d.wsi)
  ]
