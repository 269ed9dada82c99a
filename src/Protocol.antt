-- ===== src/Protocol.antt =====
-- What the client (APIs/cli/sy.c) and the file server (APIs/fs/file_server.c) do alike: messages of a
-- type, the checksums of the files in a directory, and the array of differences. A text that does not fit
-- its buffer, and a value that json_unpack does not find, are `none`.
pub mod Listing
pub mod Reporting
pub mod Agreement
use librtcdc.Base.{
  ℕ, ◌%◌, ◌≡◌, Bool, ◌||◌, Option, none, some, List, [], ◌∷◌, ◌++◌, Bytes, codes, if◌then◌else◌,
  ◌==◌, ltb, length, bytes_eq, ◌>>=◌,
}
use librtcdc.Transfer.{FileStatus, clean, client_lack, fs_lack, DiffInfo}
use librtcdc.Transfer as Transfer
use librtcdc.Checksum.{Md5, gen_md5}
use librtcdc.Meta.Json.{Key, Json, text, number, text_of, number_of, metadata_type, filename, dirty}
use librtcdc.Meta.Store.{MetadataType, code}
use librtcdc.Meta.Database.{strcpy}

-- FILE_NAME_SIZE of APIs/common.h
abbrev pub file_name_size : ℕ
file_name_size = 32

-- The size of file_path and of repo_path.
abbrev pub path_size : ℕ
path_size = 128

-- The directories and files that opendir and fopen find; else NULL.
pub record Disk : Type 0 where
  pub opendir : Bytes → Option (List Bytes)
  pub open_read : Bytes → Option Bytes

abbrev pub is_dot : Bytes → Bool
is_dot name = bytes_eq name (codes ".") || bytes_eq name (codes "..")

-- struct sy_diff_t
pub record SessionDiff : Type 0 where
  pub num : ℕ
  pub files_diff : List DiffInfo

-- The enumerator of FILEstatus with the value.
unfoldable pub status_at : ℕ → Option FileStatus
status_at n =
    if n == 0
    then some clean
    else if n == 1
    then some client_lack
    else if n == 2
    then some fs_lack
    else if n == 3
    then some Transfer.dirty
    else none

module _ {E : Type 0} (json : Json E) where
  -- An object with just its metadata type.
  abbrev pub typed : MetadataType → E
  typed type = json.put json.blank metadata_type (number (code type))

  module _ {C : Type 0} (md5 : Md5 C) (open_read : Bytes → Option Bytes) (key : Key) where
    -- The object of one file, its checksum under the key.
    unfoldable pub file_json : (directory name : Bytes) → Option E
    file_json directory name = do
      path ← strcpy path_size (directory ++ name)
      sum ← gen_md5 md5 (open_read path)
      some (json.put (json.put json.blank filename (text name)) key (text sum))

    -- The loop over the entries that readdir gives.
    unfoldable pub files_array : Bytes → List Bytes → Option (List E)
    files_array directory [] = some []
    files_array directory (name ∷ names) = do
      rest ← files_array directory names
      if is_dot name then some rest else (do file ← file_json directory name; some (file ∷ rest))

    -- A directory that cannot be opened has no files.
    unfoldable pub listed_files : Bytes → Option (List Bytes) → Option (List E)
    listed_files directory none = some []
    listed_files directory (some names) = files_array directory names

  unfoldable pub diff_info : E → Option DiffInfo
  diff_info e = do
    name ← text_of json e filename
    copied ← strcpy file_name_size name
    value ← number_of json e dirty
    status ← status_at value
    some (record { filename = copied; dirty = status })

  -- json_array_foreach over the array.
  unfoldable pub diff_infos : List E → Option (List DiffInfo)
  diff_infos [] = some []
  diff_infos (e ∷ es) = do rest ← diff_infos es; d ← diff_info e; some (d ∷ rest)

  -- `num` is a uint8_t.
  unfoldable pub session_diff : List E → Option SessionDiff
  session_diff es = do ds ← diff_infos es; some (record { num = length es % 256; files_diff = ds })
