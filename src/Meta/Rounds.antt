-- ===== src/Meta/Rounds.antt =====
-- A round of the loop of join_checksum_arrays, and what it does to the checksums of each file.
use librtcdc.Base.{
  ◌≡◌, ◌≢◌, refl, sym, Bool, true, false, inl, inr, Option, none, some, List, [], ◌∷◌, Bytes, All,
  if◌then◌else◌, bytes_eq, bytes_eq_sound, Bool-cases, arith,
}
use librtcdc.Meta.Json.{Key, Json, IsJson, Value, text, text_of}
use librtcdc.Meta.Join.{copy_array, join_element}

-- The first, and where there is none the second.
abbrev pub or_else : Option Bytes → Option Bytes → Option Bytes
or_else none o = o
or_else (some c) o = some c

-- "" for a file that is listed.
abbrev pub blank_if : Option Bytes → Option Bytes
blank_if none = none
blank_if (some c) = some []

module _ {E : Type 0} (json : Json E) where
  abbrev pub named : E → Key → Bytes → Bool
  named e pivot n = elim (text_of json e pivot) [ none ↦ false | some other ↦ bytes_eq other n ]

  -- The checksum under a key of the first element with the name.
  abbrev pub first_checksum : (pivot key : Key) → Bytes → List E → Option Bytes
  first_checksum pivot key n [] = none
  first_checksum pivot key n (e ∷ es) =
      let rest = first_checksum pivot key n es in
      if named e pivot n then text_of json e key else rest

  -- The checksum under a key of the last element with the name.
  abbrev pub last_checksum : (pivot key : Key) → Bytes → List E → Option Bytes
  last_checksum pivot key n [] = none
  last_checksum pivot key n (e ∷ es) =
      or_else (last_checksum pivot key n es) (if named e pivot n then text_of json e key else none)

  -- The element has texts under both keys.
  pub record IsListed (pivot key : Key) (e : E) : Type 0 where
    pub name : Bytes
    pub checksum : Bytes
    pub has_name : text_of json e pivot ≡ some name
    pub has_checksum : text_of json e key ≡ some checksum

  module _ (laws : IsJson json) where
    pub text_of-put :
        (e : E) (k : Key) (t : Bytes) → text_of json (json.put e k (text t)) k ≡ some t
    unfolding text_of
    text_of-put e k t = rw (text_of, laws.get-put e k (text t))

    pub text_of-put_ne :
        (e : E) (k l : Key) (v : Value E)
        → k ≢ l
        → text_of json (json.put e k v) l ≡ text_of json e l
    unfolding text_of
    text_of-put_ne e k l v h = rw (text_of, laws.get-put_ne e k l v h)

    module _ (pivot a_key b_key : Key) (pa : pivot ≢ a_key) (pb : pivot ≢ b_key)
        (ab : a_key ≢ b_key) where
      abbrev pub IsRow : E → Type 0
      IsRow e = IsListed pivot a_key e × IsListed pivot b_key e

      put-IsRow : (e : E) (t : Bytes) → IsListed pivot a_key e → IsRow (json.put e b_key (text t))
      put-IsRow e t h = (
        record {
          name = h.name;
          checksum = h.checksum;
          has_name = rw (text_of-put_ne e b_key pivot (text t) (λ x. pb (sym x))) h.has_name;
          has_checksum =
              rw (text_of-put_ne e b_key a_key (text t) (λ x. ab (sym x))) h.has_checksum;
        },
        record {
          name = h.name;
          checksum = t;
          has_name = rw (text_of-put_ne e b_key pivot (text t) (λ x. pb (sym x))) h.has_name;
          has_checksum = text_of-put e b_key t;
        },
      )

      pub copy_array-IsRow :
          (xs : List E) → All (IsListed pivot a_key) xs → All IsRow (copy_array json b_key xs)
      unfolding copy_array
      copy_array-IsRow [] h = tt
      copy_array-IsRow (a ∷ xs) h = (put-IsRow a [] h.0, copy_array-IsRow xs h.1)

      pub first_checksum-copy_array :
          (n : Bytes) (xs : List E)
          → All (IsListed pivot a_key) xs
          → (first_checksum pivot a_key n (copy_array json b_key xs)
              ≡ first_checksum pivot a_key n xs)
            × (first_checksum pivot b_key n (copy_array json b_key xs)
                ≡ blank_if (first_checksum pivot a_key n xs))
      unfolding copy_array
      first_checksum-copy_array n [] h = (refl, refl)
      first_checksum-copy_array n (a ∷ xs) h =
          let rest = first_checksum-copy_array n xs h.1 in
          let same = text_of-put_ne a b_key pivot (text []) (λ x. pb (sym x)) in
          let left = text_of-put_ne a b_key a_key (text []) (λ x. ab (sym x)) in
          let right = text_of-put a b_key [] in
          let listed = h.0.has_checksum in ground (arith, rest, same, left, right, listed)

      -- What a round of the outer loop does to the checksums of a file of any name.
      abbrev pub IsJoined : (name c n : Bytes) → (done next : List E) → Type 0
      IsJoined name c n done next =
          (first_checksum pivot a_key n next
            ≡ or_else (first_checksum pivot a_key n done)
                (if bytes_eq name n then some [] else none))
          × (first_checksum pivot b_key n next
              ≡ (if bytes_eq name n then some c else first_checksum pivot b_key n done))

      put-IsJoined :
          (name c n : Bytes) (e : E) (es : List E)
          → IsRow e
          → named e pivot name ≡ true
          → IsJoined name c n (e ∷ es) (json.put e b_key (text c) ∷ es)
      put-IsJoined name c n e es h hit =
          let same = text_of-put_ne e b_key pivot (text c) (λ x. pb (sym x)) in
          let left = text_of-put_ne e b_key a_key (text c) (λ x. ab (sym x)) in
          let right = text_of-put e b_key c in
          let there = h.0.has_checksum in
          let its_name = h.0.has_name in
          let equal = bytes_eq_sound h.0.name name in
          ground (arith, same, left, right, there, its_name, equal)

      keep-IsJoined :
          (name c n : Bytes) (e : E) (es next : List E)
          → IsRow e
          → named e pivot name ≡ false
          → IsJoined name c n es next
          → IsJoined name c n (e ∷ es) (e ∷ next)
      keep-IsJoined name c n e es next h miss joined =
          let there = h.0.has_checksum in
          let its_name = h.0.has_name in
          let equal = bytes_eq_sound name n in ground (arith, joined, there, its_name, equal)

      -- The element that is appended for a file that only the second array has.
      pub record IsFresh (name c : Bytes) (e : E) : Type 0 where
        pub has_name : text_of json e pivot ≡ some name
        pub left : text_of json e a_key ≡ some []
        pub right : text_of json e b_key ≡ some c

      fresh-IsRow : (name c : Bytes) (e : E) → IsFresh name c e → IsRow e
      fresh-IsRow name c e h = (
        record { name = name; checksum = []; has_name = h.has_name; has_checksum = h.left },
        record { name = name; checksum = c; has_name = h.has_name; has_checksum = h.right },
      )

      refresh-IsRow : (c : Bytes) (e : E) → IsRow e → IsRow (json.put e b_key (text c))
      refresh-IsRow c e h = put-IsRow e c h.0

      -- A round succeeds on rows, and keeps them rows.
      pub join_element-IsJoined :
          (name c : Bytes) (fresh : E) (done : List E)
          → IsFresh name c fresh
          → All IsRow done
          → (next : List E) × (join_element json pivot b_key name c fresh done ≡ some next)
            × (All IsRow next)
            × ((n : Bytes) → IsJoined name c n done next)
      unfolding join_element
      join_element-IsJoined name c fresh [] hf h = (
        fresh ∷ [],
        refl,
        (fresh-IsRow name c fresh hf, tt),
        λ n.
            let its_name = hf.has_name in
            let left = hf.left in let right = hf.right in ground (arith, its_name, left, right),
      )
      join_element-IsJoined name c fresh (e ∷ es) hf h =
          let (next, en, rows, joined) = join_element-IsJoined name c fresh es hf h.1 in
          let its_name = h.0.0.has_name in
          elim (Bool-cases (bytes_eq h.0.0.name name)) [
            | inl hit ↦ (
              json.put e b_key (text c) ∷ es,
              ground (arith, its_name, hit),
              (refresh-IsRow c e h.0, h.1),
              λ n. put-IsJoined name c n e es h.0 (ground (arith, its_name, hit)),
            )
            | inr miss ↦ (
              e ∷ next,
              ground (arith, its_name, miss, en),
              (h.0, rows),
              λ n. keep-IsJoined name c n e es next h.0 (ground (arith, its_name, miss)) (joined n),
            )
          ]
