-- ===== src/Meta/Store.antt =====
-- The collections of the database, the documents of APIs/ms/metadata_server.c in them, and the structures
-- of APIs/ms/ms_struct.h. The operations on a collection are the MongoDB driver's: an interface with laws.
use librtcdc.Base.{
  ℕ, ◌+◌, ◌%◌, ◌≡◌, Bool, true, false, Option, none, some, List, Bytes, if◌then◌else◌, ltb,
}

-- METADATAtype of APIs/common.h
pub data MetadataType : Type 0 where
  fs_register fs_register_ok fs_repo_exist fs_init_ok fs_repo_not_exist fs_connect_ok : MetadataType
  fs_status_ok fs_upload_ready fs_download_ready sy_init sy_repo_exist sy_init_ok sy_oauth :
      MetadataType
  sy_oauth_ok sy_oauth_fail sy_connect sy_repo_not_exist sy_connect_ok sy_status : MetadataType
  sy_status_ok sy_upload sy_upload_ok sy_download sy_download_ok sy_cleanup sy_cleanup_ok :
      MetadataType
  sy_session_not_exist : MetadataType

-- The values of the enumerators.
unfoldable pub code : MetadataType → ℕ
code fs_register = 0
code fs_register_ok = 1
code fs_repo_exist = 2
code fs_init_ok = 3
code fs_repo_not_exist = 4
code fs_connect_ok = 5
code fs_status_ok = 6
code fs_upload_ready = 7
code fs_download_ready = 8
code sy_init = 9
code sy_repo_exist = 10
code sy_init_ok = 11
code sy_oauth = 12
code sy_oauth_ok = 13
code sy_oauth_fail = 14
code sy_connect = 15
code sy_repo_not_exist = 16
code sy_connect_ok = 17
code sy_status = 18
code sy_status_ok = 19
code sy_upload = 20
code sy_upload_ok = 21
code sy_download = 22
code sy_download_ok = 23
code sy_cleanup = 24
code sy_cleanup_ok = 25
code sy_session_not_exist = 26

-- A collection of documents of one kind: insert and update may fail; find gives the first document
-- that a query selects, and update and remove change the first.
pub record Collection (D S : Type 0) : Type 0 where
  pub insert : D → S → Option S
  pub find : (D → Bool) → S → Option D
  pub update : (D → Bool) → (D → D) → S → Option S
  pub remove : (D → Bool) → S → S

pub record IsCollection {D S : Type 0} (coll : Collection D S) : Type 0 where
  pub find-holds : (q : D → Bool) (d : D) (s : S) → coll.find q s ≡ some d → q d ≡ true
  pub find-insert_old :
      (q : D → Bool) (d e : D) (s t : S)
      → coll.insert d s ≡ some t
      → coll.find q s ≡ some e
      → coll.find q t ≡ some e
  pub find-insert_new :
      (q : D → Bool) (d : D) (s t : S)
      → coll.insert d s ≡ some t
      → coll.find q s ≡ none
      → q d ≡ true
      → coll.find q t ≡ some d
  pub find-update :
      (q : D → Bool) (f : D → D) (d : D) (s t : S)
      → coll.update q f s ≡ some t
      → coll.find q s ≡ some d
      → q (f d) ≡ true
      → coll.find q t ≡ some (f d)
  pub find-update_ne :
      (q r : D → Bool) (f : D → D) (s t : S)
      → coll.update q f s ≡ some t
      → ((d : D) → r d ≡ true → q d ≡ false)
      → ((d : D) → r (f d) ≡ r d)
      → coll.find r t ≡ coll.find r s
  pub find-remove_ne :
      (q r : D → Bool) (s : S)
      → ((d : D) → r d ≡ true → q d ≡ false)
      → coll.find r (coll.remove q s) ≡ coll.find r s

-- A document of the collection of file servers. A wsi is an address; it is stored as an int32.
pub record FileServer : Type 0 where
  pub fileserver_name : Bytes
  pub wsi : ℕ

-- A document of the collection of repositories, which is also struct ms_URI_info_t.
pub record UriInfo : Type 0 where
  pub uri_code : Bytes
  pub fileserver_wsi : ℕ
  pub repo_name : Bytes

-- A document of the collection of sessions.
pub record SessionDoc (E : Type 0) : Type 0 where
  pub session_id : Bytes
  pub client_wsi : ℕ
  pub fileserver_wsi : ℕ
  pub repo_name : Bytes
  pub state : MetadataType
  pub files : List E
  pub diff : List E

-- struct ms_session_info_t; the state is not read back, and stays 0.
pub record SessionInfo : Type 0 where
  pub fileserver_wsi : ℕ
  pub client_wsi : ℕ
  pub repo_name : Bytes
  pub session_id : Bytes
  pub files : Bytes
  pub diff : Bytes

-- The low 32 bits of an address.
abbrev pub to_int32 : ℕ → ℕ
to_int32 wsi = wsi % 4294967296

-- An int32, extended with its sign to a 64-bit address.
abbrev pub of_int32 : ℕ → ℕ
of_int32 n = if ltb n 2147483648 then n else n + 18446744069414584320
