-- ===== src/Protocol/Agreement.antt =====
-- A status round from the two directories to the difference that the client is given.
use librtcdc.Base.{
  ◌<◌, ◌%◌, ◌≡◌, ◌≢◌, refl, sym, ◌∙◌, true, Option, none, some, List, [], ◌∷◌, Bytes, All, arith,
  length, bytes_eq, bytes_eq_sound, Bool-cases, inl, inr,
}
use librtcdc.Transfer.{DiffInfo}
use librtcdc.Checksum.{Md5}
use librtcdc.Meta.Json.{IsJson, text, filename, client_checksum, fs_checksum}
use librtcdc.Meta.Join.{join_checksum_arrays, diff_array}
use librtcdc.Meta.Database.{Driver, checksum_elements}
use librtcdc.Meta.Rounds.{last_checksum, text_of-put, text_of-put_ne}
use librtcdc.Meta.Diff.{expected, code_of, first_status, IsSummed, diff_expected}
use librtcdc.Protocol.{file_name_size, files_array, session_diff}
use librtcdc.Protocol.Listing.{IsMd5, is_listed, checksum_in, HasRoom, files_array_sums}
use librtcdc.Protocol.Reporting.{
  find_status, code_of_injective, diff_array-IsReported, diff_infos-read,
}

-- Each name fits `filename`.
abbrev pub IsShort : List Bytes → Type 0
IsShort = All (λ name. length name < file_name_size)

listed_short :
    (n : Bytes) (names : List Bytes)
    → IsShort names
    → is_listed n names ≡ true
    → length n < file_name_size
listed_short n [] h k = cc
listed_short n (x ∷ xs) h k =
    let same = bytes_eq_sound x n in
    elim (Bool-cases (bytes_eq x n)) [
      | inl here ↦ rw (sym (same here)) h.0
      | inr not_here ↦ listed_short n xs h.1 (ground (arith, not_here))
    ]

module _ {E S F U : Type 0} (lib : Driver E S F U) (laws : IsJson lib.json) where
  -- What the database keeps of an array of checksums: the same checksums.
  pub checksum_elements_kept :
      (es : List E)
      → All (IsSummed lib.json client_checksum) es
      → (stored : List E) × (checksum_elements lib es ≡ some stored)
        × (All (IsSummed lib.json client_checksum) stored)
        × ((n : Bytes)
            → last_checksum lib.json filename client_checksum n stored
              ≡ last_checksum lib.json filename client_checksum n es)
  unfolding checksum_elements
  checksum_elements_kept [] h = ([], refl, tt, λ n. refl)
  checksum_elements_kept (e ∷ es) h =
      let (stored, made, summed, rest) = checksum_elements_kept es h.1 in
      let listed = h.0.listed in
      let has_name = listed.has_name in
      let has_sum = listed.has_checksum in
      let some_sum = h.0.not_blank in
      let first = lib.json.put lib.json.blank filename (text listed.name) in
      let own_name =
        text_of-put_ne lib.json laws first client_checksum filename (text listed.checksum) (λ x. cc)
        ∙ text_of-put lib.json laws lib.json.blank filename listed.name in
      let own_sum = text_of-put lib.json laws first client_checksum listed.checksum in
      (
        lib.json.put first client_checksum (text listed.checksum) ∷ stored,
        rw (made, has_name, has_sum) refl,
        (
          record {
            listed = record {
              name = listed.name;
              checksum = listed.checksum;
              has_name = own_name;
              has_checksum = own_sum;
            };
            not_blank = λ x. some_sum (has_sum ∙ sym own_sum ∙ x);
          },
          summed,
        ),
        λ n. ground (arith, rest n, has_name, has_sum, own_name, own_sum),
      )

  module _ {C : Type 0} (md5 : Md5 C) (digests : IsMd5 md5) where
    -- If the client lists a directory and the file server lists one, their names fit the buffers of paths
    -- and names, and no digest of MD5 is empty, then every step of a status round has a result: the two
    -- listings, what the database keeps of the client's, the join, the comparison, and what the client
    -- reads of it. And the client is told of each name what the checksums of the two files say: CLEAN or
    -- DIRTY where both sides have it, CLIENT_LACK or FS_LACK where one has it, and nothing where none has
    -- it. The count of the files is cut to a byte.
    pub status_told :
        (client_open fs_open : Bytes → Option Bytes) (client_directory fs_directory : Bytes)
        (client_names fs_names : List Bytes)
        → HasRoom md5 client_directory client_names
        → HasRoom md5 fs_directory fs_names
        → IsShort client_names
        → IsShort fs_names
        → (own : List E) × (stored : List E) × (theirs : List E) × (joined : List E) × (ds : List E)
          × (infos : List DiffInfo) × (files_array lib.json md5 client_open client_checksum
                client_directory client_names
              ≡ some own)
          × (checksum_elements lib own ≡ some stored)
          × (files_array lib.json md5 fs_open fs_checksum fs_directory fs_names ≡ some theirs)
          × (join_checksum_arrays lib.json filename theirs fs_checksum stored client_checksum
              ≡ some joined)
          × (diff_array lib.json joined ≡ some ds)
          × (session_diff lib.json ds
              ≡ some (record { num = length infos % 256; files_diff = infos }))
          × ((n : Bytes)
              → find_status n infos
                ≡ expected
                    (checksum_in md5 client_open client_directory client_names n)
                    (checksum_in md5 fs_open fs_directory fs_names n))
    unfolding session_diff
    status_told client_open fs_open client_directory fs_directory client_names fs_names room_c
          room_f short_c short_f =
        let (own, listed_c, summed_c, sums_c) =
          files_array_sums md5 lib.json laws digests client_open client_checksum (λ x. cc)
            client_directory client_names room_c in
        let (stored, kept, summed_s, sums_s) = checksum_elements_kept own summed_c in
        let (theirs, listed_f, summed_f, sums_f) =
          files_array_sums md5 lib.json laws digests fs_open fs_checksum (λ x. cc) fs_directory
            fs_names room_f in
        let (joined, ds, join, compared, status) =
          diff_expected lib.json laws theirs stored summed_f summed_s in
        let told : (n : Bytes)
            → first_status lib.json n ds
              ≡ code_of (
                  expected (checksum_in md5 client_open client_directory client_names n)
                    (checksum_in md5 fs_open fs_directory fs_names n)) =
          λ n. status n ∙ rw (sums_s n, (sums_c n).1, (sums_f n).0) refl in
        let short : (n : Bytes) → first_status lib.json n ds ≢ none → length n < file_name_size =
          λ n there. elim (Bool-cases (is_listed n client_names)) [
            | inl in_c ↦ listed_short n client_names short_c in_c
            | inr out_c ↦ elim (Bool-cases (is_listed n fs_names)) [
              | inl in_f ↦ listed_short n fs_names short_f in_f
              | inr out_f ↦ absurd (there (told n ∙ rw (out_c, out_f) refl))
            ]
          ] in
        let (infos, read, count, found) =
          diff_infos-read lib.json laws ds (diff_array-IsReported lib.json laws joined ds compared)
            short in
        (
          own,
          stored,
          theirs,
          joined,
          ds,
          infos,
          listed_c,
          kept,
          listed_f,
          join,
          compared,
          rw (read, count) refl,
          λ n. code_of_injective _ _ (sym (found n) ∙ told n),
        )
