-- ===== src/Sdp/Exchange.antt =====
-- An offer and its answer: what each side writes, the other reads.
use librtcdc.Base.{
  ℕ, ◌≤◌, ◌≡◌, refl, ap, sym, ◌∙◌, Bool, true, false, ◌||◌, List, [], ◌∷◌, ◌++◌, append_assoc,
  Bytes, codes, All, arith, inl, inr, Bool-cases, IsDigits,
}
use librtcdc.Sdp.Splitting.{Glib, IsGlib, join, starts, IsFree}
use librtcdc.Sdp.{Local, random_integer, random_number_string, ice_lines, crlf_text}
use librtcdc.Sdp.Reading.{lf_text, IsPassive}

-- The port that is taken lies in the range.
pub random_integer_bounds :
    (least most r : ℕ)
    → least ≤ most
    → (least ≤ random_integer least most r) × (random_integer least most r ≤ most)
unfolding random_integer
random_integer_bounds least most r h = omega arith

pub random_number_string-IsDigits : (rs : List ℕ) → IsDigits (random_number_string rs)
unfolding random_number_string
random_number_string-IsDigits [] = tt
random_number_string-IsDigits (r ∷ rs) = (omega arith, random_number_string-IsDigits rs)

pub crlf_text-join :
    (l : Bytes) (ls : List Bytes) → crlf_text (l ∷ ls) ≡ join (13 ∷ 10 ∷ []) ((l ∷ ls) ++ [] ∷ [])
crlf_text-join l [] = refl
crlf_text-join l (m ∷ ls) = ap (λ t. l ++ (13 ∷ 10 ∷ t)) (crlf_text-join m ls)

pub lf_text-append : (xs ys : List Bytes) → lf_text (xs ++ ys) ≡ lf_text xs ++ lf_text ys
lf_text-append [] ys = refl
lf_text-append (x ∷ xs) ys =
    ap (λ t. x ++ (10 ∷ t)) (lf_text-append xs ys)
    ∙ sym (append_assoc x (10 ∷ lf_text xs) (lf_text ys))

pub All-append : (P : Bytes → Type 0) (xs ys : List Bytes) → All P xs → All P ys → All P (xs ++ ys)
All-append P [] ys h k = k
All-append P (x ∷ xs) ys h k = (h.0, All-append P xs ys h.1 k)

-- The word of the setup line.
abbrev pub setup_word : Bool → Bytes
setup_word true = codes "active"
setup_word false = codes "passive"

module _ (glib : Glib) (laws : IsGlib glib) where
  -- No carriage return stands in the lines of the ICE description or in the fingerprint.
  pub record IsPlain (l : Local) : Type 0 where
    pub ice : All (IsFree 13) (glib.split l.ice_sdp (10 ∷ []))
    pub fingerprint : IsFree 13 l.fingerprint

  pub ice_lines-IsFree :
      (ls : List Bytes) → All (IsFree 13) ls → All (IsFree 13) (ice_lines glib ls)
  unfolding ice_lines
  ice_lines-IsFree [] h = tt
  ice_lines-IsFree (l ∷ ls) h =
      elim (Bool-cases
        (glib.has_prefix l (codes "a=ice-ufrag:") || glib.has_prefix l (codes "a=ice-pwd:"))) [
          | inl kept ↦ rw kept (h.0, ice_lines-IsFree ls h.1)
          | inr dropped ↦ rw dropped (ice_lines-IsFree ls h.1)
        ]

  starts_ice : (l : Bytes) → starts (codes "a=i") l ≡ true → IsPassive glib laws l
  starts_ice [] h = cc
  starts_ice (a ∷ []) h = ground arith
  starts_ice (a ∷ b ∷ []) h = ground arith
  starts_ice (a ∷ b ∷ c ∷ l) h = ground arith

  starts_less :
      (l : Bytes)
      → (starts (codes "a=ice-ufrag:") l || starts (codes "a=ice-pwd:") l) ≡ true
      → starts (codes "a=i") l ≡ true
  starts_less [] h = cc
  starts_less (a ∷ []) h = ground arith
  starts_less (a ∷ b ∷ []) h = ground arith
  starts_less (a ∷ b ∷ c ∷ l) h = ground arith

  pub ice_lines-IsPassive : (ls : List Bytes) → All (IsPassive glib laws) (ice_lines glib ls)
  unfolding ice_lines
  ice_lines-IsPassive [] = tt
  ice_lines-IsPassive (l ∷ ls) =
      elim (Bool-cases
        (glib.has_prefix l (codes "a=ice-ufrag:") || glib.has_prefix l (codes "a=ice-pwd:"))) [
          | inl kept ↦ rw kept (
            starts_ice l (
                starts_less l (
                  rw
                    (
                      laws.has_prefix-starts l (codes "a=ice-ufrag:"),
                      laws.has_prefix-starts l (codes "a=ice-pwd:"),
                    )
                    at kept)),
            ice_lines-IsPassive ls,
          )
          | inr dropped ↦ rw dropped (ice_lines-IsPassive ls)
        ]
