-- ===== src/Protocol/Listing.antt =====
-- The listing of a directory: which checksum it gives for a name.
use librtcdc.Base.{
  suc, ◌<◌, ◌≡◌, ◌≢◌, refl, sym, ◌∙◌, Bool, false, not, ◌&&◌, ◌||◌, Option, none, some, List, [],
  ◌∷◌, ◌++◌, Bytes, All, arith, if◌then◌else◌, lt→ltb, length, bytes_eq, bytes_eq_sound, Bool-cases,
  inl, inr,
}
use librtcdc.Checksum.{Md5, hex, md5_loop-ends, gen_md5}
use librtcdc.Meta.Json.{Key, Json, IsJson, text, text_of, filename}
use librtcdc.Meta.Database.{strcpy}
use librtcdc.Meta.Rounds.{first_checksum, last_checksum, text_of-put, text_of-put_ne}
use librtcdc.Meta.Diff.{IsSummed}
use librtcdc.Protocol.{is_dot, path_size, file_json, files_array}

-- The digest is not empty (it has 16 bytes).
pub record IsMd5 {C : Type 0} (md5 : Md5 C) : Type 0 where
  pub some_digest : (ctx : C) → md5.final ctx ≢ []

-- The name is one of the directory, and neither "." nor "..".
abbrev pub is_listed : Bytes → List Bytes → Bool
is_listed n [] = false
is_listed n (x ∷ xs) = (not (is_dot x) && bytes_eq x n) || is_listed n xs

hex_not_blank : (hash : Bytes) → hash ≢ [] → hex hash ≢ []
unfolding hex
hex_not_blank [] h = h
hex_not_blank (c ∷ hash) h = λ e. cc

module _ {C : Type 0} (md5 : Md5 C) where
  -- The checksum of the file with the name, if it is listed.
  abbrev pub checksum_in :
      (Bytes → Option Bytes) → (directory : Bytes) → List Bytes → Bytes → Option Bytes
  checksum_in open_read directory names n =
      if is_listed n names then gen_md5 md5 (open_read (directory ++ n)) else none

  -- gen_md5 has a result, and it is not "".
  gen_md5_result :
      IsMd5 md5
      → (content : Option Bytes) → (sum : Bytes) × (gen_md5 md5 content ≡ some sum) × (sum ≢ [])
  unfolding gen_md5
  gen_md5_result laws none = (
    hex (md5.final md5.init),
    refl,
    hex_not_blank (md5.final md5.init) (laws.some_digest md5.init),
  )
  gen_md5_result laws (some content) =
      let (last, ended) = md5_loop-ends md5 (suc (length content)) md5.init content (omega arith) in
      (hex (md5.final last), rw ended refl, hex_not_blank (md5.final last) (laws.some_digest last))

  -- Each name has room behind the directory.
  abbrev pub HasRoom : (directory : Bytes) → List Bytes → Type 0
  HasRoom directory = All (λ name. length (directory ++ name) < path_size)

  module _ {E : Type 0} (json : Json E) (laws : IsJson json) (digests : IsMd5 md5)
      (open_read : Bytes → Option Bytes) (key : Key) (apart : filename ≢ key) where
    -- The object of a file names it and gives its checksum.
    file_json_gives :
        (directory name : Bytes)
        → length (directory ++ name) < path_size
        → (e : E) × (sum : Bytes) × (file_json json md5 open_read key directory name ≡ some e)
          × (gen_md5 md5 (open_read (directory ++ name)) ≡ some sum)
          × (text_of json e filename ≡ some name)
          × (text_of json e key ≡ some sum)
          × (sum ≢ [])
    unfolding file_json strcpy
    file_json_gives directory name room =
        let (sum, digest, some_sum) = gen_md5_result digests (open_read (directory ++ name)) in
        let fits = lt→ltb (length (directory ++ name)) path_size room in
        let named_only = json.put json.blank filename (text name) in
        (
          json.put named_only key (text sum),
          sum,
          rw (fits, digest) refl,
          digest,
          text_of-put_ne json laws named_only key filename (text sum) (λ x. apart (sym x))
              ∙ text_of-put json laws json.blank filename name,
          text_of-put json laws named_only key sum,
          some_sum,
        )

    -- The listing has a result: objects with a checksum each, and for each name the one of its file.
    pub files_array_sums :
        (directory : Bytes) (names : List Bytes)
        → HasRoom directory names
        → (es : List E) × (files_array json md5 open_read key directory names ≡ some es)
          × (All (IsSummed json key) es)
          × ((n : Bytes)
              → (first_checksum json filename key n es ≡ checksum_in open_read directory names n)
                × (last_checksum json filename key n es ≡ checksum_in open_read directory names n))
    unfolding files_array
    files_array_sums directory [] room = ([], refl, tt, λ n. (refl, refl))
    files_array_sums directory (name ∷ names) room =
        let (es, listed, summed, rest) = files_array_sums directory names room.1 in
        elim (Bool-cases (is_dot name)) [
          | inl dot ↦ (es, rw (listed, dot) refl, summed, λ n. rw dot (rest n))
          | inr file ↦
              let (e, sum, made, digest, has_name, has_sum, some_sum) =
                file_json_gives directory name room.0 in
              (
                e ∷ es,
                rw (listed, file, made) refl,
                (
                  record {
                    listed = record {
                      name = name;
                      checksum = sum;
                      has_name = has_name;
                      has_checksum = has_sum;
                    };
                    not_blank = rw has_sum (λ x. ground (arith, some_sum));
                  },
                  summed,
                ),
                λ n.
                    let same = bytes_eq_sound name n in
                    ground (arith, rest n, has_name, has_sum, digest, file, same),
              )
        ]
