-- ===== src/Checksum.antt =====
-- gen_md5 of APIs/fs/file_server.c and APIs/cli/sy.c, which are alike. OpenSSL's MD5 is a parameter.
use librtcdc.Base.{
  ℕ, zero, suc, ◌+◌, ◌-◌, ◌/◌, ◌%◌, ◌<◌, ◌≤◌, ◌≡◌, refl, ap, Option, none, some, [], ◌∷◌, Bytes,
  if◌then◌else◌, ◌==◌, ltb, length, replicate, drop, ◌>>=◌, arith, bytes_eq_refl,
}
use librtcdc.Transfer.{clean}
use librtcdc.Transfer.Lines.{take}
use librtcdc.Meta.Join.{status_of}

-- MD5_LINE_SIZE
abbrev pub md5_line_size : ℕ
md5_line_size = 32

-- MD5_Init, MD5_Update and MD5_Final on a context
pub record Md5 (C : Type 0) : Type 0 where
  pub init : C
  pub update : C → Bytes → C
  pub final : C → Bytes

abbrev pub hex_digit : ℕ → ℕ
hex_digit n = if ltb n 10 then 48 + n else 87 + n

-- sprintf(tmp, "%02x", c) for each byte of the hash
unfoldable pub hex : Bytes → Bytes
hex [] = []
hex (c ∷ hash) = hex_digit (c / 16 % 16) ∷ hex_digit (c % 16) ∷ hex hash

module _ {C : Type 0} (md5 : Md5 C) where
  -- The loop: what fread has put into the buffer is cleared before it goes into the digest. Each round
  -- reads a byte or ends the loop; `none` means that the fuel ran out.
  unfoldable pub md5_loop : ℕ → C → Bytes → Option C
  md5_loop zero ctx content = none
  md5_loop (suc fuel) ctx content =
      let nread = length (take md5_line_size content) in
      let more = md5_loop fuel (md5.update ctx (replicate nread 0)) (drop md5_line_size content) in
      if nread == 0 then some ctx else more

  -- The contents of the file, or NULL from fopen.
  unfoldable pub gen_md5 : Option Bytes → Option Bytes
  gen_md5 none = some (hex (md5.final md5.init))
  gen_md5 (some content) = do
    ctx ← md5_loop (suc (length content)) md5.init content
    some (hex (md5.final ctx))

  length-take : (n : ℕ) (a b : Bytes) → length a ≡ length b → length (take n a) ≡ length (take n b)
  length-take zero a b h = refl
  length-take (suc n) [] [] h = refl
  length-take (suc n) [] (d ∷ b) h = absurd (omega (arith, h))
  length-take (suc n) (c ∷ a) [] h = absurd (omega (arith, h))
  length-take (suc n) (c ∷ a) (d ∷ b) h = ap suc (length-take n a b (omega (arith, h)))

  length-drop : (n : ℕ) (a b : Bytes) → length a ≡ length b → length (drop n a) ≡ length (drop n b)
  length-drop zero a b h = h
  length-drop (suc n) [] [] h = refl
  length-drop (suc n) [] (d ∷ b) h = absurd (omega (arith, h))
  length-drop (suc n) (c ∷ a) [] h = absurd (omega (arith, h))
  length-drop (suc n) (c ∷ a) (d ∷ b) h = length-drop n a b (omega (arith, h))

  drop_most : (n : ℕ) (a : Bytes) → length (drop n a) ≤ length a
  drop_most zero a = omega arith
  drop_most (suc n) [] = omega arith
  drop_most (suc n) (c ∷ a) = omega (arith, drop_most n a)

  -- A read takes a byte, or nothing is left.
  drop_shrinks : (n : ℕ) (a : Bytes) → length (drop (suc n) a) ≤ length a - 1
  drop_shrinks n [] = omega arith
  drop_shrinks n (c ∷ a) = omega (arith, drop_most n a)

  pub md5_loop-ends :
      (fuel : ℕ) (ctx : C) (a : Bytes)
      → length a < fuel
      → (last : C) × (md5_loop fuel ctx a ≡ some last)
  unfolding md5_loop
  md5_loop-ends zero ctx a h = absurd (omega arith)
  md5_loop-ends (suc fuel) ctx [] h = (ctx, refl)
  md5_loop-ends (suc fuel) ctx (c ∷ a) h =
      let less = drop_shrinks 31 (c ∷ a) in
      let nread = length (take 32 (c ∷ a)) in
      let (last, ended) =
        md5_loop-ends fuel (md5.update ctx (replicate nread 0)) (drop 32 (c ∷ a))
          (omega (arith, less)) in
      (last, ground (arith, ended))

  md5_loop-length :
      (fuel : ℕ) (ctx : C) (a b : Bytes)
      → length a ≡ length b
      → md5_loop fuel ctx a ≡ md5_loop fuel ctx b
  unfolding md5_loop
  md5_loop-length zero ctx a b h = refl
  md5_loop-length (suc fuel) ctx a b h =
      let nread = length-take 32 a b h in
      let rest =
        md5_loop-length fuel (md5.update ctx (replicate (length (take 32 b)) 0)) (drop 32 a)
          (drop 32 b) (length-drop 32 a b h) in
      rw (nread, rest) refl

  -- Whatever MD5 is: two files of the same length get the same digest, and the metadata server calls
  -- them clean.
  pub same_length_clean :
      (a b : Bytes)
      → length a ≡ length b
      → (digest : Bytes) × (gen_md5 (some a) ≡ some digest)
        × (gen_md5 (some b) ≡ some digest)
        × (status_of digest digest ≡ clean)
  unfolding gen_md5 status_of
  same_length_clean a b h =
      let (last, ended) = md5_loop-ends (suc (length a)) md5.init a (omega arith) in
      let same = md5_loop-length (suc (length a)) md5.init a b h in
      let digest = hex (md5.final last) in
      (digest, rw ended refl, ground (arith, h, same, ended), rw (bytes_eq_refl digest) refl)
