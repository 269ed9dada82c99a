-- ===== src/Tests/Joining.antt =====
-- Two arrays of checksums with one common file.
use librtcdc.Base.{ℕ, ◌≡◌, refl, some, List, [], ◌∷◌, Bytes, codes}
use librtcdc.Meta.Json.{Key, text, filename, client_checksum, fs_checksum, text_of}
use librtcdc.Meta.Join.{join_checksum_arrays, diff_array}
use librtcdc.Meta.Rounds.{first_checksum, last_checksum, IsListed}
use librtcdc.Meta.Diff.{expected, code_of, first_status, IsSummed, diff_expected}
use librtcdc.Tests.Objects.{Object, objects, objects-IsJson}

abbrev pub entry : Key → Bytes → Bytes → Object
entry key name checksum =
    objects.put (objects.put objects.blank filename (text name)) key (text checksum)

abbrev pub served : List Object
served = entry fs_checksum (codes "a") (codes "1") ∷ entry fs_checksum (codes "b") (codes "2") ∷ []

abbrev pub local : List Object
local =
    entry client_checksum (codes "a") (codes "1")
    ∷ entry client_checksum (codes "c") (codes "3")
    ∷ []

fs_entry-IsListed :
    (name checksum : Bytes)
    → IsListed objects filename fs_checksum (entry fs_checksum name checksum)
unfolding text_of
fs_entry-IsListed name checksum = record {
  name = name;
  checksum = checksum;
  has_name = refl;
  has_checksum = refl;
}

client_entry-IsListed :
    (name checksum : Bytes)
    → IsListed objects filename client_checksum (entry client_checksum name checksum)
unfolding text_of
client_entry-IsListed name checksum = record {
  name = name;
  checksum = checksum;
  has_name = refl;
  has_checksum = refl;
}

fs_entry-IsSummed :
    (name : Bytes) (c : ℕ) (checksum : Bytes)
    → IsSummed objects fs_checksum (entry fs_checksum name (c ∷ checksum))
unfolding text_of
fs_entry-IsSummed name c checksum = record {
  listed = fs_entry-IsListed name (c ∷ checksum);
  not_blank = λ e. cc;
}

client_entry-IsSummed :
    (name : Bytes) (c : ℕ) (checksum : Bytes)
    → IsSummed objects client_checksum (entry client_checksum name (c ∷ checksum))
unfolding text_of
client_entry-IsSummed name c checksum = record {
  listed = client_entry-IsListed name (c ∷ checksum);
  not_blank = λ e. cc;
}

diff_expected_example :
    (files : List Object) × (ds : List Object) × (join_checksum_arrays objects filename served
        fs_checksum local client_checksum
      ≡ some files)
    × (diff_array objects files ≡ some ds)
    × ((n : Bytes)
        → first_status objects n ds
          ≡ code_of (
              expected
                (last_checksum objects filename client_checksum n local)
                (first_checksum objects filename fs_checksum n served)))
diff_expected_example =
    diff_expected objects objects-IsJson served local
      (fs_entry-IsSummed (codes "a") 49 [], (fs_entry-IsSummed (codes "b") 50 [], tt))
      (client_entry-IsSummed (codes "a") 49 [], (client_entry-IsSummed (codes "c") 51 [], tt))
