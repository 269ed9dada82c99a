-- ===== src/Meta/Diff.antt =====
-- The status that the metadata server reports for each file.
use librtcdc.Base.{
  ℕ, ◌≡◌, ◌≢◌, refl, ap, Option, none, some, List, [], ◌∷◌, Bytes, All, if◌then◌else◌, bytes_eq,
  arith,
}
use librtcdc.Transfer.{FileStatus, clean, client_lack, fs_lack}
use librtcdc.Transfer as Transfer
use librtcdc.Meta.Json.{
  Key, Json, IsJson, text, number, text_of, number_of, filename, dirty, client_checksum,
  fs_checksum,
}
use librtcdc.Meta.Join.{join_checksum_arrays, status_of, status_code, diff_element, diff_array}
use librtcdc.Meta.Outer.{join_rows}
use librtcdc.Meta.Rounds.{
  or_else, blank_if, first_checksum, last_checksum, IsListed, named, text_of-put, text_of-put_ne,
}

-- What is to be said about a file with these checksums, where it is there, at the client and at the
-- file server.
abbrev pub expected : (client fs : Option Bytes) → Option FileStatus
expected none none = none
expected none (some f) = some client_lack
expected (some c) none = some fs_lack
expected (some c) (some f) = some (if bytes_eq c f then clean else Transfer.dirty)

abbrev pub code_of : Option FileStatus → Option ℕ
code_of none = none
code_of (some s) = some (status_code s)

-- The status of a joined file.
abbrev joined_status : (client fs : Option Bytes) → Option FileStatus
joined_status none fs = none
joined_status (some c) none = none
joined_status (some c) (some f) = some (status_of c f)

joined_status-expected :
    (client fs : Option Bytes)
    → client ≢ some []
    → fs ≢ some []
    → joined_status (or_else client (blank_if fs)) (or_else fs (blank_if client))
      ≡ expected client fs
unfolding status_of
joined_status-expected none none hc hf = refl
joined_status-expected none (some []) hc hf = absurd (hf refl)
joined_status-expected none (some (b ∷ f)) hc hf = refl
joined_status-expected (some []) fs hc hf = absurd (hc refl)
joined_status-expected (some (a ∷ c)) none hc hf = refl
joined_status-expected (some (a ∷ c)) (some []) hc hf = absurd (hf refl)
joined_status-expected (some (a ∷ c)) (some (b ∷ f)) hc hf = ground arith

module _ {E : Type 0} (json : Json E) where
  -- The status of the first element with the name.
  abbrev pub first_status : Bytes → List E → Option ℕ
  first_status n [] = none
  first_status n (e ∷ es) =
      let rest = first_status n es in
      if named json e filename n then number_of json e dirty else rest

  -- The element names a file and gives a checksum that is not "".
  pub record IsSummed (key : Key) (e : E) : Type 0 where
    pub listed : IsListed json filename key e
    pub not_blank : text_of json e key ≢ some []

  summed-IsListed :
      (key : Key) (xs : List E) → All (IsSummed key) xs → All (IsListed json filename key) xs
  summed-IsListed key [] h = tt
  summed-IsListed key (x ∷ xs) h = (h.0.listed, summed-IsListed key xs h.1)

  first_not_blank :
      (key : Key) (n : Bytes) (xs : List E)
      → All (IsSummed key) xs
      → first_checksum json filename key n xs ≢ some []
  first_not_blank key n [] h = λ e. cc
  first_not_blank key n (x ∷ xs) h =
      let rest = first_not_blank key n xs h.1 in
      let here = h.0.not_blank in λ e. ground (arith, rest, here)

  last_not_blank :
      (key : Key) (n : Bytes) (xs : List E)
      → All (IsSummed key) xs
      → last_checksum json filename key n xs ≢ some []
  last_not_blank key n [] h = λ e. cc
  last_not_blank key n (x ∷ xs) h =
      let rest = last_not_blank key n xs h.1 in
      let here = h.0.not_blank in λ e. ground (arith, rest, here)

  -- The element is a row of the joined array.
  abbrev IsJoinedRow : E → Type 0
  IsJoinedRow e = IsListed json filename fs_checksum e × IsListed json filename client_checksum e

  module _ (laws : IsJson json) where
    pub number_of-put :
        (e : E) (k : Key) (m : ℕ) → number_of json (json.put e k (number m)) k ≡ some m
    unfolding number_of
    number_of-put e k m = rw (number_of, laws.get-put e k (number m))

    diff_array-joined :
        (es : List E)
        → All IsJoinedRow es
        → (ds : List E) × (diff_array json es ≡ some ds)
          × ((n : Bytes)
              → first_status n ds
                ≡ code_of (
                    joined_status
                      (first_checksum json filename client_checksum n es)
                      (first_checksum json filename fs_checksum n es)))
    unfolding diff_array diff_element
    diff_array-joined [] h = ([], refl, λ n. refl)
    diff_array-joined (e ∷ es) h =
        let (ds, ed, rest) = diff_array-joined es h.1 in
        let (fs, client) = h.0 in
        let named_so = client.has_name in
        let c = client.has_checksum in
        let f = fs.has_checksum in
        let status = number (status_code (status_of client.checksum fs.checksum)) in
        let first = json.put json.blank filename (text client.name) in
        let name_there = text_of-put json laws json.blank filename client.name in
        let name_kept = text_of-put_ne json laws first dirty filename status (λ x. cc) in
        let status_there =
          number_of-put first dirty (status_code (status_of client.checksum fs.checksum)) in
        (
          json.put first dirty status ∷ ds,
          rw (ed, named_so, c, f),
          λ n. ground (arith, rest n, named_so, c, f, name_there, name_kept, status_there),
        )

    -- From the checksums of the file server and those of the client, all given and none of them "",
    -- the join and the comparison come to an end, and the array of results says of a file of any
    -- name: CLEAN or DIRTY, as its checksums are equal or not, where both sides have it;
    -- CLIENT_LACK or FS_LACK where one side has it; and nothing where none has it. (Where a side
    -- lists a name twice, the last checksum of the client and the first of the file server count.)
    pub diff_expected :
        (fs client : List E)
        → All (IsSummed fs_checksum) fs
        → All (IsSummed client_checksum) client
        → (files : List E) × (ds : List E) × (join_checksum_arrays json filename fs fs_checksum
              client client_checksum
            ≡ some files)
          × (diff_array json files ≡ some ds)
          × ((n : Bytes)
              → first_status n ds
                ≡ code_of (
                    expected
                      (last_checksum json filename client_checksum n client)
                      (first_checksum json filename fs_checksum n fs)))
    diff_expected fs client hf hc =
        let (files, joined, rows, outer) =
          join_rows json laws filename fs_checksum client_checksum (λ x. cc) (λ x. cc) (λ x. cc) fs
            client (summed-IsListed fs_checksum fs hf)
            (summed-IsListed client_checksum client hc) in
        let (ds, made, status) = diff_array-joined files rows in
        (
          files,
          ds,
          joined,
          made,
          λ n.
              let (left, right) = outer n in
              rw (status n, left, right)
                (ap code_of (
                  joined_status-expected (last_checksum json filename client_checksum n client)
                    (first_checksum json filename fs_checksum n fs)
                    (last_not_blank client_checksum n client hc)
                    (first_not_blank fs_checksum n fs hf))),
        )
