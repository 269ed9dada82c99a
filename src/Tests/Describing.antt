-- ===== src/Tests/Describing.antt =====
-- A g_strsplit and a g_str_has_prefix that keep the laws, and two peers that connect.
use librtcdc.Base.{
  ℕ, zero, suc, ◌≡◌, ◌≢◌, refl, ap, ◌∙◌, true, List, [], ◌∷◌, ◌++◌, append-nil, append_assoc, Bytes,
  All, arith, if◌then◌else◌, length, drop,
}
use librtcdc.Sdp.Splitting.{Glib, IsGlib, join, starts, IsFree}

-- `skip` bytes of the separator are left to pass over.
abbrev pub pieces : (sep : Bytes) (skip : ℕ) (current text : Bytes) → List Bytes
pieces sep skip current [] = current ∷ []
pieces sep zero current (c ∷ t) =
    let after = pieces sep (length (drop 1 sep)) [] t in
    let on = pieces sep zero (current ++ c ∷ []) t in
    if starts sep (c ∷ t) then current ∷ after else on
pieces sep (suc n) current (c ∷ t) = pieces sep n current t

abbrev pub pieces_of : Bytes → Bytes → List Bytes
pieces_of [] sep = []
pieces_of (c ∷ t) sep = pieces sep zero [] (c ∷ t)

abbrev pub glib : Glib
glib = record { split = pieces_of; has_prefix = λ text prefix. starts prefix text }

skip_over :
    (sep s current t : Bytes) → pieces sep (length s) current (s ++ t) ≡ pieces sep zero current t
skip_over sep [] current t = refl
skip_over sep (c ∷ s) current t = skip_over sep s current t

starts_self : (s t : Bytes) → starts s (s ++ t) ≡ true
starts_self [] t = refl
starts_self (c ∷ s) t = ground (arith, starts_self s t)

piece_end :
    (c : ℕ) (sep current p : Bytes)
    → IsFree c p
    → pieces (c ∷ sep) zero current p ≡ (current ++ p) ∷ []
piece_end c sep current [] h = rw (append-nil current) refl
piece_end c sep current (d ∷ p) h =
    let next = piece_end c sep (current ++ d ∷ []) p h.1 in
    let joined = append_assoc current (d ∷ []) p in ground (arith, h.0, next, joined)

piece_more :
    (c : ℕ) (sep current p t : Bytes)
    → IsFree c p
    → pieces (c ∷ sep) zero current (p ++ (c ∷ sep ++ t))
      ≡ (current ++ p) ∷ pieces (c ∷ sep) zero [] t
piece_more c sep current [] t h =
    let here = starts_self sep t in
    let over = skip_over (c ∷ sep) sep [] t in
    let same = append-nil current in ground (arith, here, over, same)
piece_more c sep current (d ∷ p) t h =
    let next = piece_more c sep (current ++ d ∷ []) p t h.1 in
    let joined = append_assoc current (d ∷ []) p in ground (arith, h.0, next, joined)

pieces-join :
    (c : ℕ) (sep p : Bytes) (ps : List Bytes)
    → All (IsFree c) (p ∷ ps)
    → pieces (c ∷ sep) zero [] (join (c ∷ sep) (p ∷ ps)) ≡ p ∷ ps
pieces-join c sep p [] h = piece_end c sep [] p h.0
pieces-join c sep p (q ∷ ps) h =
    piece_more c sep [] p (join (c ∷ sep) (q ∷ ps)) h.0 ∙ ap (◌∷◌ p) (pieces-join c sep q ps h.1)

whole : (t sep : Bytes) → t ≢ [] → pieces_of t sep ≡ pieces sep zero [] t
whole [] sep h = absurd (h refl)
whole (c ∷ t) sep h = refl

split-join :
    (c : ℕ) (sep : Bytes) (ps : List Bytes)
    → All (IsFree c) ps
    → join (c ∷ sep) ps ≢ []
    → pieces_of (join (c ∷ sep) ps) (c ∷ sep) ≡ ps
split-join c sep [] h k = absurd (k refl)
split-join c sep (p ∷ ps) h k =
    whole (join (c ∷ sep) (p ∷ ps)) (c ∷ sep) k ∙ pieces-join c sep p ps h

pub glib-IsGlib : IsGlib glib
glib-IsGlib = record { split-join = split-join; has_prefix-starts = λ text prefix. refl }
