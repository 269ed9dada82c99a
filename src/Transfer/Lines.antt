-- ===== src/Transfer/Lines.antt =====
-- fgets and strlen of the C library, as the sending loops use them.
use librtcdc.Base.{
  HasNoNul, ℕ, zero, suc, ◌≡◌, refl, Bool, true, false, [], ◌∷◌, ◌++◌, Bytes, arith, if◌then◌else◌,
  ◌==◌,
}

-- What a call of fgets leaves: the bytes in the buffer (none: NULL was returned), the rest of the file,
-- and the end-of-file flag, which is set where the call ran into the end.
pub record Line : Type 0 where
  pub chunk : Bytes
  pub rest : Bytes
  pub eof : Bool

-- Up to `room` bytes, up to a newline.
unfoldable pub read_line : ℕ → Bytes → Line
read_line zero text = record { chunk = []; rest = text; eof = false }
read_line (suc room) [] = record { chunk = []; rest = []; eof = true }
read_line (suc room) (c ∷ text) =
    let more = read_line room text in
    if c == 10
    then record { chunk = c ∷ []; rest = text; eof = false }
    else record { chunk = c ∷ more.chunk; rest = more.rest; eof = more.eof }

-- fgets(buf, size, file), for a size of at least 1
unfoldable pub fgets : ℕ → Bytes → Line
fgets zero text = record { chunk = []; rest = text; eof = false }
fgets (suc size) text = read_line size text

-- The bytes before the first NUL, or all.
unfoldable pub strlen : Bytes → ℕ
strlen [] = 0
strlen (c ∷ text) = if c == 0 then 0 else suc (strlen text)

abbrev pub take : ℕ → Bytes → Bytes
take zero text = []
take (suc n) [] = []
take (suc n) (c ∷ text) = c ∷ take n text

-- A line and the rest make up the text; at the end of the file nothing is left.
pub read_line-append :
    (room : ℕ) (text : Bytes) → (read_line room text).chunk ++ (read_line room text).rest ≡ text
unfolding read_line
read_line-append zero text = refl
read_line-append (suc room) [] = refl
read_line-append (suc room) (c ∷ text) = ground (arith, read_line-append room text)

pub read_line-eof :
    (room : ℕ) (text : Bytes) → (read_line room text).eof ≡ true → (read_line room text).rest ≡ []
unfolding read_line
read_line-eof zero text h = cc
read_line-eof (suc room) [] h = refl
read_line-eof (suc room) (c ∷ text) h = ground (arith, read_line-eof room text)

-- NULL is returned at the end only.
pub read_line_nil : (room : ℕ) (text : Bytes) → (read_line (suc room) text).chunk ≡ [] → text ≡ []
unfolding read_line
read_line_nil room [] h = refl
read_line_nil room (c ∷ text) h = ground arith

pub take-strlen : (text : Bytes) → HasNoNul text → take (strlen text) text ≡ text
unfolding strlen
take-strlen [] h = refl
take-strlen (c ∷ text) h = ground (arith, take-strlen text h.1, h.0)

pub HasNoNul-append : (a b : Bytes) → HasNoNul (a ++ b) → HasNoNul a × HasNoNul b
HasNoNul-append [] b h = (tt, h)
HasNoNul-append (c ∷ a) b h = let (ha, hb) = HasNoNul-append a b h.1 in ((h.0, ha), hb)
