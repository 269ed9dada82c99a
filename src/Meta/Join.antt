-- ===== src/Meta/Join.antt =====
-- join_checksum_arrays of APIs/ms/metadata_server.c, and the comparison of the two checksums of a file.
-- A run that passes NULL to strcmp, or that uses a variable which json_unpack has not set, is `none`.
use librtcdc.Base.{ℕ, Option, none, some, List, [], ◌∷◌, Bytes, if◌then◌else◌, bytes_eq, ◌>>=◌}
use librtcdc.Transfer.{FileStatus, clean, client_lack, fs_lack, dirty}
use librtcdc.Meta.Json.{
  Key, Json, Value, text, number, text_of, filename, client_checksum, fs_checksum,
}
use librtcdc.Meta.Json as Json_keys

-- The chain of tests on the two checksums.
unfoldable pub status_of : Bytes → Bytes → FileStatus
status_of client fs =
    if bytes_eq client fs
    then clean
    else if bytes_eq client []
    then client_lack
    else if bytes_eq fs []
    then fs_lack
    else dirty

-- The enumerators of FILEstatus.
unfoldable pub status_code : FileStatus → ℕ
status_code clean = 0
status_code client_lack = 1
status_code fs_lack = 2
status_code dirty = 3

module _ {E : Type 0} (json : Json E) where
  -- The copy of the first array, with "" under the other key.
  unfoldable pub copy_array : Key → List E → List E
  copy_array b_key [] = []
  copy_array b_key (a ∷ xs) = json.put a b_key (text []) ∷ copy_array b_key xs

  -- The inner loop: the checksum is set in the first element with the name, or the new element is
  -- appended.
  unfoldable pub join_element : (pivot b_key : Key) → Bytes → Bytes → E → List E → Option (List E)
  join_element pivot b_key name checksum fresh [] = some (fresh ∷ [])
  join_element pivot b_key name checksum fresh (e ∷ es) =
      let rest = join_element pivot b_key name checksum fresh es in
      elim (text_of json e pivot) [
        | none ↦ none
        | some other ↦
            if bytes_eq other name
            then some (json.put e b_key (text checksum) ∷ es)
            else (do more ← rest; some (e ∷ more))
      ]

  -- The loop over the second array.
  unfoldable pub join_into : (pivot a_key b_key : Key) → List E → List E → Option (List E)
  join_into pivot a_key b_key done [] = some done
  join_into pivot a_key b_key done (b ∷ bs) = do
    name ← text_of json b pivot
    checksum ← text_of json b b_key
    next ← join_element pivot b_key name checksum (json.put b a_key (text [])) done
    join_into pivot a_key b_key next bs

  unfoldable pub join_checksum_arrays : Key → List E → Key → List E → Key → Option (List E)
  join_checksum_arrays pivot xs a_key ys b_key =
      join_into pivot a_key b_key (copy_array b_key xs) ys

  unfoldable pub diff_element : E → Option E
  diff_element e = do
    name ← text_of json e filename
    client ← text_of json e client_checksum
    fs ← text_of json e fs_checksum
    some (
        json.put (json.put json.blank filename (text name)) Json_keys.dirty
          (number (status_code (status_of client fs))))

  -- The array of the files with their status.
  unfoldable pub diff_array : List E → Option (List E)
  diff_array [] = some []
  diff_array (e ∷ es) = do rest ← diff_array es; d ← diff_element e; some (d ∷ rest)
