-- ===== src/Meta/Outer.antt =====
-- join_checksum_arrays is a full outer join on the file names.
use librtcdc.Base.{◌≡◌, ◌≢◌, refl, sym, some, List, [], ◌∷◌, Bytes, All, arith}
use librtcdc.Meta.Json.{Key, Json, IsJson, text, text_of}
use librtcdc.Meta.Join.{copy_array, join_into, join_checksum_arrays}
use librtcdc.Meta.Rounds.{
  or_else, blank_if, first_checksum, last_checksum, IsListed, text_of-put, text_of-put_ne, IsRow,
  copy_array-IsRow, first_checksum-copy_array, IsJoined, IsFresh, join_element-IsJoined,
}

module _ {E : Type 0} (json : Json E) (laws : IsJson json) (pivot a_key b_key : Key)
    (pa : pivot ≢ a_key) (pb : pivot ≢ b_key) (ab : a_key ≢ b_key) where
  abbrev IsMerged : (n : Bytes) → (done ys next : List E) → Type 0
  IsMerged n done ys next =
      (first_checksum json pivot a_key n next
        ≡ or_else (first_checksum json pivot a_key n done)
            (blank_if (last_checksum json pivot b_key n ys)))
      × (first_checksum json pivot b_key n next
          ≡ or_else (last_checksum json pivot b_key n ys) (first_checksum json pivot b_key n done))

  round_step :
      (name c n : Bytes) (b : E) (done next out ys : List E)
      → text_of json b pivot ≡ some name
      → text_of json b b_key ≡ some c
      → IsJoined json laws pivot a_key b_key pa pb ab name c n done next
      → IsMerged n next ys out
      → IsMerged n done (b ∷ ys) out
  round_step name c n b done next out ys hn hc joined outer = ground (arith, joined, outer, hn, hc)

  join_into-IsMerged :
      (done ys : List E)
      → All (IsRow json laws pivot a_key b_key pa pb ab) done
      → All (IsListed json pivot b_key) ys
      → (out : List E) × (join_into json pivot a_key b_key done ys ≡ some out)
        × (All (IsRow json laws pivot a_key b_key pa pb ab) out)
        × ((n : Bytes) → IsMerged n done ys out)
  unfolding join_into
  join_into-IsMerged done [] h k = (done, refl, h, λ n. ground arith)
  join_into-IsMerged done (b ∷ ys) h k =
      let listed = k.0 in
      let fresh : IsFresh json laws pivot a_key b_key pa pb ab listed.name listed.checksum
          (json.put b a_key (text [])) =
        record {
          has_name =
              rw (text_of-put_ne json laws b a_key pivot (text []) (λ x. pa (sym x)))
                listed.has_name;
          left = text_of-put json laws b a_key [];
          right = rw (text_of-put_ne json laws b a_key b_key (text []) ab) listed.has_checksum;
        } in
      let (next, en, rows, joined) =
        join_element-IsJoined json laws pivot a_key b_key pa pb ab listed.name listed.checksum
          (json.put b a_key (text [])) done fresh h in
      let (out, eo, out_rows, outer) = join_into-IsMerged next ys rows k.1 in
      (
        out,
        rw (listed.has_name, listed.has_checksum, en) eo,
        out_rows,
        λ n.
            round_step listed.name listed.checksum n b done next out ys listed.has_name
              listed.has_checksum (joined n) (outer n),
      )

  -- The join succeeds on complete elements, and gives rows.
  pub join_rows :
      (xs ys : List E)
      → All (IsListed json pivot a_key) xs
      → All (IsListed json pivot b_key) ys
      → (out : List E) × (join_checksum_arrays json pivot xs a_key ys b_key ≡ some out)
        × (All (IsRow json laws pivot a_key b_key pa pb ab) out)
        × ((n : Bytes)
            → (first_checksum json pivot a_key n out
                ≡ or_else
                    (first_checksum json pivot a_key n xs)
                    (blank_if (last_checksum json pivot b_key n ys)))
              × (first_checksum json pivot b_key n out
                  ≡ or_else
                      (last_checksum json pivot b_key n ys)
                      (blank_if (first_checksum json pivot a_key n xs))))
  unfolding join_checksum_arrays
  join_rows xs ys hx hy =
      let (out, eo, rows, outer) =
        join_into-IsMerged (copy_array json b_key xs) ys
          (copy_array-IsRow json laws pivot a_key b_key pa pb ab xs hx) hy in
      (
        out,
        eo,
        rows,
        λ n.
            let copied = first_checksum-copy_array json laws pivot a_key b_key pa pb ab n xs hx in
            ground (arith, outer n, copied),
      )

  -- Two arrays whose elements have a name and their checksum are joined, and in the result, for any
  -- file name: the first checksum is the one of the first array, or "" for a file that only the
  -- second has; the second checksum is the last one that the second array gives, or "" for a file
  -- that only the first has; a file that neither has is not there.
  pub join_outer :
      (xs ys : List E)
      → All (IsListed json pivot a_key) xs
      → All (IsListed json pivot b_key) ys
      → (out : List E) × (join_checksum_arrays json pivot xs a_key ys b_key ≡ some out)
        × ((n : Bytes)
            → (first_checksum json pivot a_key n out
                ≡ or_else
                    (first_checksum json pivot a_key n xs)
                    (blank_if (last_checksum json pivot b_key n ys)))
              × (first_checksum json pivot b_key n out
                  ≡ or_else
                      (last_checksum json pivot b_key n ys)
                      (blank_if (first_checksum json pivot a_key n xs))))
  join_outer xs ys hx hy =
      let (out, joined, rows, outer) = join_rows xs ys hx hy in (out, joined, outer)
