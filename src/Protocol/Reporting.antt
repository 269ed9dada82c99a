-- ===== src/Protocol/Reporting.antt =====
-- The array of differences: what the metadata server writes, the client and the file server read.
use librtcdc.Base.{
  ◌<◌, ◌≡◌, ◌≢◌, refl, ap, sym, ◌∙◌, Option, none, some, List, [], ◌∷◌, Bytes, All, arith,
  if◌then◌else◌, lt→ltb, length, bytes_eq, bytes_eq_refl, Option-cases, inl, inr,
}
use librtcdc.Transfer.{FileStatus, clean, client_lack, fs_lack, DiffInfo}
use librtcdc.Transfer as Transfer
use librtcdc.Meta.Json.{
  Json, IsJson, text, number, text_of, number_of, filename, dirty, client_checksum, fs_checksum,
}
use librtcdc.Meta.Database.{strcpy}
use librtcdc.Meta.Join.{status_of, status_code, diff_element, diff_array}
use librtcdc.Meta.Rounds.{text_of-put, text_of-put_ne}
use librtcdc.Meta.Diff.{first_status, code_of, number_of-put}
use librtcdc.Protocol.{file_name_size, status_at, diff_info, diff_infos}

-- The status of the first file with the name.
abbrev pub find_status : Bytes → List DiffInfo → Option FileStatus
find_status n [] = none
find_status n (d ∷ ds) =
    let rest = find_status n ds in if bytes_eq d.filename n then some d.dirty else rest

status_at-status_code : (s : FileStatus) → status_at (status_code s) ≡ some s
unfolding status_at status_code
status_at-status_code clean = refl
status_at-status_code client_lack = refl
status_at-status_code fs_lack = refl
status_at-status_code Transfer.dirty = refl

-- No two statuses have the same value.
pub code_of_injective : (a b : Option FileStatus) → code_of a ≡ code_of b → a ≡ b
code_of_injective none none h = refl
code_of_injective none (some s) h = cc
code_of_injective (some s) none h = cc
code_of_injective (some s) (some t) h =
    let left = status_at-status_code s in
    let right = status_at-status_code t in
    let same : status_code s ≡ status_code t = cc in sym left ∙ ap status_at same ∙ right

module _ {E : Type 0} (json : Json E) (laws : IsJson json) where
  -- An element of the array: a name and a status.
  pub record IsReported (d : E) : Type 0 where
    pub name : Bytes
    pub status : FileStatus
    pub has_name : text_of json d filename ≡ some name
    pub has_status : number_of json d dirty ≡ some (status_code status)

  put-IsReported :
      (name client fs : Bytes)
      → IsReported (
          json.put
            (json.put json.blank filename (text name))
            dirty
            (number (status_code (status_of client fs))))
  put-IsReported name client fs =
      let first = json.put json.blank filename (text name) in
      let value = status_code (status_of client fs) in
      record {
        name = name;
        status = status_of client fs;
        has_name =
            text_of-put_ne json laws first dirty filename (number value) (λ x. cc)
            ∙ text_of-put json laws json.blank filename name;
        has_status = number_of-put json laws first dirty value;
      }

  diff_element-IsReported : (e d : E) → diff_element json e ≡ some d → IsReported d
  unfolding diff_element
  diff_element-IsReported e d h = elim (Option-cases (text_of json e filename)) [
    | inl missing ↦ absurd (ground (arith, h, missing))
    | inr (name, a) ↦ elim (Option-cases (text_of json e client_checksum)) [
      | inl missing ↦ absurd (ground (arith, h, a, missing))
      | inr (client, b) ↦ elim (Option-cases (text_of json e fs_checksum)) [
        | inl missing ↦ absurd (ground (arith, h, a, b, missing))
        | inr (fs, c) ↦
            let made : d
                ≡ json.put (json.put json.blank filename (text name)) dirty
                    (number (status_code (status_of client fs))) =
              ground (arith, h, a, b, c) in
            rw made (put-IsReported name client fs)
      ]
    ]
  ]

  pub diff_array-IsReported : (es ds : List E) → diff_array json es ≡ some ds → All IsReported ds
  unfolding diff_array
  diff_array-IsReported [] ds h = let same : ds ≡ [] = cc in rw same tt
  diff_array-IsReported (e ∷ es) ds h = elim (Option-cases (diff_array json es)) [
    | inl missing ↦ absurd (ground (arith, h, missing))
    | inr (rest, a) ↦ elim (Option-cases (diff_element json e)) [
      | inl missing ↦ absurd (ground (arith, h, a, missing))
      | inr (d, b) ↦
          let made : ds ≡ d ∷ rest = ground (arith, h, a, b) in
          rw made (diff_element-IsReported e d b, diff_array-IsReported es rest a)
    ]
  ]

  -- The array is read: as many files, and for each name the status that the array gives it first.
  pub diff_infos-read :
      (ds : List E)
      → All IsReported ds
      → ((n : Bytes) → first_status json n ds ≢ none → length n < file_name_size)
      → (infos : List DiffInfo) × (diff_infos json ds ≡ some infos)
        × (length infos ≡ length ds)
        × ((n : Bytes) → first_status json n ds ≡ code_of (find_status n infos))
  unfolding diff_infos diff_info strcpy
  diff_infos-read [] h short = ([], refl, refl, λ n. refl)
  diff_infos-read (d ∷ ds) h short =
      let this = h.0 in
      let has_name = this.has_name in
      let has_status = this.has_status in
      let (infos, read, count, rest) =
        diff_infos-read ds h.1
          (λ n there. short n (λ gone. ground (arith, gone, there, has_name, has_status))) in
      let own = bytes_eq_refl this.name in
      let room =
        lt→ltb (length this.name) file_name_size
          (short this.name (λ gone. ground (arith, gone, has_name, has_status, own))) in
      let value = status_at-status_code this.status in
      (
        record { filename = this.name; dirty = this.status } ∷ infos,
        rw (read, has_name, room, has_status, value) refl,
        omega (arith, count),
        λ n. ground (arith, rest n, has_name, has_status),
      )
