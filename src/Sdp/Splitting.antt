-- ===== src/Sdp/Splitting.antt =====
-- What the session descriptions use of GLib: an interface, with the laws that GLib documents.
use librtcdc.Base.{ℕ, ◌≡◌, ◌≢◌, Bool, true, false, ◌&&◌, List, [], ◌∷◌, ◌++◌, Bytes, All, ◌==◌}

-- g_strsplit(text, separator, 0) and g_str_has_prefix
pub record Glib : Type 0 where
  pub split : (text separator : Bytes) → List Bytes
  pub has_prefix : (text prefix : Bytes) → Bool

-- The texts, with the separator between them.
abbrev pub join : Bytes → List Bytes → Bytes
join sep [] = []
join sep (p ∷ []) = p
join sep (p ∷ q ∷ ps) = p ++ (sep ++ join sep (q ∷ ps))

abbrev pub starts : (prefix text : Bytes) → Bool
starts [] text = true
starts (c ∷ prefix) [] = false
starts (c ∷ prefix) (d ∷ text) = d == c && starts prefix text

-- The byte does not stand in the text.
abbrev pub IsFree : ℕ → Bytes → Type 0
IsFree c = All (λ d. d ≢ c)

-- A text that is not empty is taken apart where it was put together, if the first byte of the separator
-- stands in no part.
pub record IsGlib (glib : Glib) : Type 0 where
  pub split-join :
      (c : ℕ) (sep : Bytes) (ps : List Bytes)
      → All (IsFree c) ps
      → join (c ∷ sep) ps ≢ []
      → glib.split (join (c ∷ sep) ps) (c ∷ sep) ≡ ps
  pub has_prefix-starts : (text prefix : Bytes) → glib.has_prefix text prefix ≡ starts prefix text
