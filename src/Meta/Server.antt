-- ===== src/Meta/Server.antt =====
-- callback_SDP of APIs/ms/metadata_server.c: the cases for file servers that register and for sessions that
-- begin, one function for each metadata type. A run through NULL, or that copies too long a text, is `none`.
use librtcdc.Base.{ℕ, Option, none, some, [], ◌∷◌, ◌++◌, Bytes, codes, if◌then◌else◌, ◌==◌, ◌>>=◌}
use librtcdc.Meta.Json.{
  text, number, text_of, put_text, metadata_type, fileserver_dns, session_id, repo_name, uri_code,
}
use librtcdc.Meta.Store.{
  MetadataType, fs_register, fs_register_ok, sy_init, sy_init_ok, sy_connect, sy_connect_ok,
  SessionInfo, UriInfo, code,
}
use librtcdc.Meta.Database.{
  WriteData, Driver, Server, Field, delete_fileserver, delete_session, insert_fileserver,
  insert_session, insert_filesys, update_session, get_session, get_uri, get_wsi, strcpy, id_size,
  repo_name_size,
}
use librtcdc.Meta.Database as Database

-- WRITE_DATA_SIZE
abbrev pub write_data_size : ℕ
write_data_size = 2048

-- "toppano://server1.tw"
abbrev pub server_name : Bytes
server_name = codes "toppano://server1.tw"

-- write_data of a connection
abbrev pub set_write_data : ℕ → WriteData → (ℕ → WriteData) → ℕ → WriteData
set_write_data wsi w all other = if other == wsi then w else all other

-- calloc(1, sizeof(struct lwst_writedata_t))
abbrev pub no_data : WriteData
no_data = record { target_wsi = 0; type = fs_register; content = [] }

module _ {E S F U : Type 0} (lib : Driver E S F U) where
  -- The write data of the connection is filled in, and a writeable callback is asked for.
  unfoldable pub post :
      (wsi target : ℕ) → MetadataType → Bytes → Server S F U → Option (Server S F U)
  post wsi target type content m = do
    copied ← strcpy write_data_size content
    some (record m {
      write_data =
          set_write_data wsi (record { target_wsi = target; type = type; content = copied })
            m.write_data;
      on_writable = m.on_writable ++ wsi ∷ [];
    })

  abbrev pub message : MetadataType → E
  message type = lib.json.put lib.json.blank metadata_type (number (code type))

  unfoldable pub on_fs_register : ℕ → Server S F U → Option (Server S F U)
  on_fs_register wsi m =
      post wsi wsi fs_register_ok
        (lib.json.dumps (lib.json.put (message fs_register_ok) fileserver_dns (text server_name)))
        (insert_fileserver lib server_name wsi m).1

  unfoldable pub on_sy_init : Bytes → ℕ → E → Server S F U → Option (Server S F U)
  on_sy_init oid wsi msg m = elim (get_wsi lib server_name m) [
    | none ↦ some m
    | some fileserver ↦ do
      repo ← text_of lib.json msg repo_name
      let made = insert_session lib oid fileserver wsi repo sy_init m
      post wsi fileserver sy_init
          (lib.json.dumps (
            put_text lib.json (lib.json.put (message sy_init) repo_name (text repo)) session_id
              made.0))
          made.1
  ]

  -- With the session; NULL faults.
  unfoldable pub init_session :
      Bytes → ℕ → Bytes → Option SessionInfo → Server S F U → Option (Server S F U)
  init_session oid wsi id none m = none
  init_session oid wsi id (some session) m = do
    uri ← strcpy id_size oid
    let listed =
        insert_filesys lib
          (record {
            uri_code = uri;
            fileserver_wsi = session.fileserver_wsi;
            repo_name = session.repo_name;
          })
          m
    updated ← update_session lib id (Database.state sy_init_ok) listed.1
    post wsi session.client_wsi sy_init_ok
        (lib.json.dumps (
          lib.json.put (lib.json.put (message sy_init_ok) uri_code (text uri)) session_id
            (text id)))
        updated.1

  unfoldable pub on_fs_init_ok : Bytes → ℕ → E → Server S F U → Option (Server S F U)
  on_fs_init_ok oid wsi msg m = do
    id ← text_of lib.json msg session_id
    session ← get_session lib id m
    init_session oid wsi id session m

  unfoldable pub connect_uri : Bytes → ℕ → Option UriInfo → Server S F U → Option (Server S F U)
  connect_uri oid wsi none m = some m
  connect_uri oid wsi (some uri) m =
      let made = insert_session lib oid uri.fileserver_wsi wsi uri.repo_name sy_connect m in
      post wsi wsi sy_connect_ok
        (lib.json.dumps (put_text lib.json (message sy_connect_ok) session_id made.0)) made.1

  unfoldable pub on_sy_connect : Bytes → ℕ → E → Server S F U → Option (Server S F U)
  on_sy_connect oid wsi msg m = do
    uri_text ← text_of lib.json msg uri_code
    uri ← get_uri lib uri_text m
    connect_uri oid wsi uri m
