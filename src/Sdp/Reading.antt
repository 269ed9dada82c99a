-- ===== src/Sdp/Reading.antt =====
-- What the loop of rtcdc_parse_offer_sdp reads out of lines that are known.
use librtcdc.Base.{
  ℕ, zero, suc, ◌+◌, ◌<◌, ◌≤◌, ◌≡◌, refl, ap, ◌∙◌, true, false, some, List, [], ◌∷◌, ◌++◌,
  append-nil, append_assoc, Bytes, codes, All, arith, lt→ltb, length, length-append, inl, ◌⊎◌,
  decimal, decimal-IsDigits, IsDigits, atoi-decimal, pos,
}
use librtcdc.Sdp.Splitting.{Glib, IsGlib, starts, IsFree}
use librtcdc.Sdp.{Party, buffer_size, read_line, read_lines, settle, set_remote_port, crlf_text}

-- The lines with "\n" behind each, as they go to libnice.
abbrev pub lf_text : List Bytes → Bytes
lf_text [] = []
lf_text (l ∷ ls) = l ++ (10 ∷ lf_text ls)

pub lf_text-le-crlf_text :
    (ls : List Bytes) → length (lf_text ls) + length ls ≤ length (crlf_text ls)
lf_text-le-crlf_text [] = omega arith
lf_text-le-crlf_text (l ∷ ls) = omega (
  arith,
  lf_text-le-crlf_text ls,
  length-append l (10 ∷ lf_text ls),
  length-append l (13 ∷ 10 ∷ crlf_text ls),
)

pub IsFree-append : (c : ℕ) (a b : Bytes) → IsFree c a → IsFree c b → IsFree c (a ++ b)
IsFree-append c [] b h k = k
IsFree-append c (d ∷ a) b h k = (h.0, IsFree-append c a b h.1 k)

-- A byte that is no digit stands in no number.
pub digits-IsFree : (c : ℕ) (s : Bytes) → (c < 48) ⊎ (57 < c) → IsDigits s → IsFree c s
digits-IsFree c [] h k = tt
digits-IsFree c (d ∷ s) h k = (λ e. ground (arith, k.0), digits-IsFree c s h k.1)

module _ (glib : Glib) (laws : IsGlib glib) where
  -- The loop reads the lines to their end, and takes the peer from `p` to `q`.
  abbrev pub IsRead : List Bytes → Party → Party → Type 0
  IsRead ls p q =
      (buf : Bytes)
      → length (buf ++ lf_text ls) < buffer_size
      → read_lines glib ls buf p ≡ some (some (buf ++ lf_text ls), q)

  pub end-IsRead : (p : Party) → IsRead [] p p
  unfolding read_lines
  end-IsRead p buf h = rw (append-nil buf) refl

  pub cons-IsRead :
      (l : Bytes) (ls : List Bytes) (p q r : Party)
      → read_line glib l p ≡ some (true, q)
      → IsRead ls q r
      → IsRead (l ∷ ls) p r
  unfolding read_lines
  cons-IsRead l ls p q r step rest buf h =
      let shift : (buf ++ (l ++ 10 ∷ [])) ++ lf_text ls ≡ buf ++ (l ++ (10 ∷ lf_text ls)) =
        append_assoc buf (l ++ 10 ∷ []) (lf_text ls)
        ∙ ap (◌++◌ buf) (append_assoc l (10 ∷ []) (lf_text ls)) in
      let more = rest (buf ++ (l ++ 10 ∷ [])) (rw shift h) in
      let room : length (buf ++ (l ++ 10 ∷ [])) < buffer_size =
        omega (arith, h, length-append (buf ++ (l ++ 10 ∷ [])) (lf_text ls), ap length shift) in
      let fits = lt→ltb (length (buf ++ (l ++ 10 ∷ []))) buffer_size room in
      let done : read_lines glib ls (buf ++ (l ++ 10 ∷ [])) q
          ≡ some (some (buf ++ (l ++ (10 ∷ lf_text ls))), r) =
        more ∙ rw shift refl in
      ground (arith, step, fits, done)

  -- A line with neither prefix is passed on.
  abbrev pub IsPassive : Bytes → Type 0
  IsPassive l = (starts (codes "m=application") l ≡ false) × (starts (codes "a=setup:") l ≡ false)

  pub passive_line : (l : Bytes) (p : Party) → IsPassive l → read_line glib l p ≡ some (true, p)
  unfolding read_line
  passive_line l p h =
      rw
        (
          laws.has_prefix-starts l (codes "m=application"),
          laws.has_prefix-starts l (codes "a=setup:"),
          h.0,
          h.1,
        )
        refl

  pub passive-IsRead :
      (l : Bytes) (ls : List Bytes) (p r : Party)
      → IsPassive l
      → IsRead ls p r
      → IsRead (l ∷ ls) p r
  passive-IsRead l ls p r h rest = cons-IsRead l ls p p r (passive_line l p h) rest

  pub passives-IsRead :
      (xs ys : List Bytes) (p r : Party) → All IsPassive xs → IsRead ys p r → IsRead (xs ++ ys) p r
  passives-IsRead [] ys p r h rest = rest
  passives-IsRead (x ∷ xs) ys p r h rest =
      passive-IsRead x (xs ++ ys) p r h.0 (passives-IsRead xs ys p r h.1 rest)

  -- The line with the port.
  pub port_line :
      (n : ℕ) (p : Party)
      → 0 < n
      → read_line glib (codes "m=application 1 DTLS/SCTP " ++ decimal n) p
        ≡ some (true, record p { remote_port = pos n })
  unfolding read_line set_remote_port
  port_line zero p h = absurd (omega arith)
  port_line (suc n) p h =
      let columns =
        laws.split-join 32 []
          (codes "m=application" ∷ codes "1" ∷ codes "DTLS/SCTP" ∷ decimal (suc n) ∷ [])
          (
            ground arith,
            (
              ground arith,
              (
                ground arith,
                (
                  digits-IsFree 32 (decimal (suc n)) (inl (omega arith)) (decimal-IsDigits (suc n)),
                  tt,
                ),
              ),
            ),
          )
          (λ e. cc) in
      rw
        (
          laws.has_prefix-starts (codes "m=application 1 DTLS/SCTP " ++ decimal (suc n))
              (codes "m=application"),
          columns,
          atoi-decimal (suc n),
        )
        refl

  -- The line with the role.
  pub role_line :
      (word : Bytes) (p : Party)
      → IsFree 58 word
      → read_line glib (codes "a=setup:" ++ word) p ≡ some (true, settle glib word p)
  unfolding read_line
  role_line word p h =
      let columns =
        laws.split-join 58 [] (codes "a=setup" ∷ word ∷ []) (ground arith, (h, tt)) (λ e. cc) in
      rw
        (
          laws.has_prefix-starts (codes "a=setup:" ++ word) (codes "m=application"),
          laws.has_prefix-starts (codes "a=setup:" ++ word) (codes "a=setup:"),
          columns,
        )
        refl
