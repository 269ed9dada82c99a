-- ===== src/Certificate/Fingerprint.antt =====
-- The room that the fingerprint takes.
use librtcdc.Base.{
  ℕ, ◌+◌, ◌*◌, ◌/◌, ◌%◌, ◌<◌, ◌≤◌, ◌≡◌, ◌↔◌, refl, true, none, some, [], ◌∷◌, Bytes, ltb, ltb→lt,
  lt→ltb, length, Bool-cases, inl, inr, arith,
}
use librtcdc.Certificate.{
  fingerprint_size, Calls, upper_digit, fingerprint_loop, cut_last, print_fingerprint,
  context_ready, create_dtls_context,
}

loop_fits :
    (size offset : ℕ) (digest : Bytes)
    → offset + 3 * length digest < size
    → (text : Bytes) × (fingerprint_loop size offset digest ≡ some text)
      × (length text ≡ 3 * length digest)
unfolding fingerprint_loop
loop_fits size offset [] h = ([], refl, refl)
loop_fits size offset (b ∷ digest) h =
    let (text, printed, count) = loop_fits size (offset + 3) digest (omega (arith, h)) in
    let room = lt→ltb (offset + 3) size (omega (arith, h)) in
    (
      upper_digit (b / 16 % 16) ∷ upper_digit (b % 16) ∷ 58 ∷ text,
      rw (room, printed) refl,
      omega (arith, count),
    )

loop_overruns :
    (size offset b : ℕ) (digest : Bytes)
    → size ≤ offset + 3 * length (b ∷ digest)
    → fingerprint_loop size offset (b ∷ digest) ≡ none
unfolding fingerprint_loop
loop_overruns size offset b [] h = ground (arith, h)
loop_overruns size offset b (c ∷ digest) h =
    let rest = loop_overruns size (offset + 3) c digest (omega (arith, h)) in
    elim (Bool-cases (ltb (offset + 3) size)) [
      | inl room ↦ simp (room, rest)
      | inr full ↦ simp full
    ]

cut_last_made : (c : ℕ) (text : Bytes) → (cut : Bytes) × (cut_last (c ∷ text) ≡ some cut)
unfolding cut_last
cut_last_made c [] = ([], refl)
cut_last_made c (d ∷ text) = let (cut, made) = cut_last_made d text in (c ∷ cut, rw made refl)

cut_last_whole : (text : Bytes) → 0 < length text → (cut : Bytes) × (cut_last text ≡ some cut)
cut_last_whole [] h = absurd (omega (arith, h))
cut_last_whole (c ∷ text) h = cut_last_made c text

context_fits :
    (o : Calls) (b : ℕ) (digest : Bytes)
    → context_ready o ≡ true
    → 3 * length (b ∷ digest) < fingerprint_size
    → (cut : Bytes) × (create_dtls_context o (b ∷ digest) ≡ some (some cut))
unfolding create_dtls_context print_fingerprint
context_fits o b digest ready h =
    let (text, printed, count) = loop_fits fingerprint_size 0 (b ∷ digest) (omega (arith, h)) in
    let (cut, made) = cut_last_whole text (omega (arith, count)) in
    (cut, rw (ready, printed, made) refl)

context_overruns :
    (o : Calls) (b : ℕ) (digest : Bytes)
    → context_ready o ≡ true
    → fingerprint_size ≤ 3 * length (b ∷ digest)
    → create_dtls_context o (b ∷ digest) ≡ none
unfolding create_dtls_context print_fingerprint
context_overruns o b digest ready h =
    let over = loop_overruns fingerprint_size 0 b digest (omega (arith, h)) in rw (ready, over) refl

-- If all calls of OpenSSL succeed and the digest has a byte, then create_dtls_context writes outside the
-- array of the fingerprint exactly if three times the length of the digest is 96 or more: so it does for a
-- digest of 32 bytes.
pub context_overruns_iff :
    (o : Calls) (b : ℕ) (digest : Bytes)
    → context_ready o ≡ true
    → (create_dtls_context o (b ∷ digest) ≡ none) ↔ (fingerprint_size ≤ 3 * length (b ∷ digest))
context_overruns_iff o b digest ready = (too_long, context_overruns o b digest ready)
  where
    too_long :
        create_dtls_context o (b ∷ digest) ≡ none → fingerprint_size ≤ 3 * length (b ∷ digest)
    too_long over = elim (Bool-cases (ltb (3 * length (b ∷ digest)) fingerprint_size)) [
      | inr long ↦ ground (arith, long)
      | inl short ↦ let (cut, made) = context_fits o b digest ready (ltb→lt _ _ short) in cc
    ]
