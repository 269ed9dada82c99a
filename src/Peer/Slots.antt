-- ===== src/Peer/Slots.antt =====
-- Where the loops over the channel table stop.
use librtcdc.Base.{
  ℕ, zero, suc, ◌≤◌, ◌<◌, ◌≡◌, refl, Option, none, some, List, [], ◌∷◌, arith, length, get_elem?,
}
use librtcdc.Peer.{Channel, first_free, find_sid}

pub first_free-le-length : (cs : List (Option Channel)) → first_free cs ≤ length cs
unfolding first_free
first_free-le-length [] = omega arith
first_free-le-length (none ∷ cs) = omega arith
first_free-le-length (some c ∷ cs) = omega (arith, first_free-le-length cs)

-- Below the length, the slot that is found is free.
pub first_free_is_free :
    (cs : List (Option Channel))
    → first_free cs < length cs
    → get_elem? cs (first_free cs) ≡ some none
unfolding first_free
first_free_is_free [] h = elim h [ ]
first_free_is_free (none ∷ cs) h = refl
first_free_is_free (some c ∷ cs) h = first_free_is_free cs (omega arith)

-- The channel that is found has the stream id and stands in the slot.
pub find_sid_found :
    (sid : ℕ) (cs : List (Option Channel)) (i : ℕ) (c : Channel)
    → find_sid sid cs ≡ some (i, c)
    → (c.sid ≡ sid) × (get_elem? cs i ≡ some (some c)) × (i < length cs)
unfolding find_sid
find_sid_found sid [] i c h = cc
find_sid_found sid (none ∷ cs) zero c h = ground arith
find_sid_found sid (none ∷ cs) (suc i) c h = ground (arith, find_sid_found sid cs i c)
find_sid_found sid (some d ∷ cs) zero c h = ground arith
find_sid_found sid (some d ∷ cs) (suc i) c h = ground (arith, find_sid_found sid cs i c)
