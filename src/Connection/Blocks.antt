-- ===== src/Connection/Blocks.antt =====
-- How often the destruction of a peer connection frees a block.
use librtcdc.Base.{
  ℕ, zero, suc, ◌+◌, ◌<◌, ◌≤◌, ◌≡◌, refl, sym, Bool, true, false, Option, none, some, List, [], ◌∷◌,
  ◌++◌, Bytes, if◌then◌else◌, ◌==◌, length, get_elem?, arith, ltb,
}
use native.Mathlib.Decide.{ℕ_discrete, dec_lt}
use librtcdc.Peer.{Channel}
use librtcdc.Connection.{
  PeerConnection, Block, stun_text, label_text, protocol_text, peer_block, free_if,
  rtcdc_destroy_data_channel, destroy_channels,
}

abbrev pub same_block : Block → Block → Bool
same_block stun_text stun_text = true
same_block (label_text i) (label_text j) = i == j
same_block (protocol_text i) (protocol_text j) = i == j
same_block peer_block peer_block = true
same_block _ _ = false

-- How often a block is freed.
unfoldable pub frees_of : Block → List Block → ℕ
frees_of b [] = 0
frees_of b (x ∷ blocks) = (if same_block b x then 1 else 0) + frees_of b blocks

abbrev pub present : Option Bytes → ℕ
present none = 0
present (some text) = 1

abbrev pub label_in : Option (Option Channel) → ℕ
label_in none = 0
label_in (some none) = 0
label_in (some (some c)) = present c.label

abbrev pub protocol_in : Option (Option Channel) → ℕ
protocol_in none = 0
protocol_in (some none) = 0
protocol_in (some (some c)) = present c.protocol

-- How many such blocks the connection holds: at most one.
unfoldable pub held : PeerConnection → Block → ℕ
held c stun_text = present c.stun_server
held c (label_text i) = label_in (get_elem? c.channels i)
held c (protocol_text i) = protocol_in (get_elem? c.channels i)
held c peer_block = 1

pub frees_of-append :
    (b : Block) (xs ys : List Block) → frees_of b (xs ++ ys) ≡ frees_of b xs + frees_of b ys
unfolding frees_of
frees_of-append b [] ys = omega arith
frees_of-append b (x ∷ xs) ys = omega (arith, frees_of-append b xs ys)

pub frees_of-free_if :
    (b d : Block) (text : Option Bytes)
    → frees_of b (free_if text d) ≡ (if same_block b d then present text else 0)
unfolding frees_of free_if
frees_of-free_if b d none = ground arith
frees_of-free_if b d (some text) = ground arith

pub texts_freed :
    (b : Block) (i : ℕ) (c : Channel)
    → frees_of b (free_if c.label (label_text i) ++ free_if c.protocol (protocol_text i))
      ≡ (if same_block b (label_text i) then present c.label else 0)
        + (if same_block b (protocol_text i) then present c.protocol else 0)
texts_freed b i c = omega (
  arith,
  frees_of-append b (free_if c.label (label_text i)) (free_if c.protocol (protocol_text i)),
  frees_of-free_if b (label_text i) c.label,
  frees_of-free_if b (protocol_text i) c.protocol,
)

-- Of a block of the channels from slot `i` to the last of `rounds`.
abbrev pub held_between : ℕ → ℕ → List (Option Channel) → Block → ℕ
held_between rounds i cs stun_text = 0
held_between rounds i cs peer_block = 0
held_between rounds i cs (label_text j) =
    if ltb j i then 0 else if ltb j (i + rounds) then label_in (get_elem? cs j) else 0
held_between rounds i cs (protocol_text j) =
    if ltb j i then 0 else if ltb j (i + rounds) then protocol_in (get_elem? cs j) else 0

-- Of the texts of one channel.
abbrev pub held_at : ℕ → Option Channel → Block → ℕ
held_at i slot stun_text = 0
held_at i slot peer_block = 0
held_at i slot (label_text j) = if j == i then label_in (some slot) else 0
held_at i slot (protocol_text j) = if j == i then protocol_in (some slot) else 0

pub frees_of-channel :
    (b : Block) (i : ℕ) (slot : Option Channel)
    → frees_of b (rtcdc_destroy_data_channel i slot) ≡ held_at i slot b
unfolding rtcdc_destroy_data_channel
frees_of-channel stun_text i none = unfold frees_of in refl
frees_of-channel (label_text j) i none = unfold frees_of in ground arith
frees_of-channel (protocol_text j) i none = unfold frees_of in ground arith
frees_of-channel peer_block i none = unfold frees_of in refl
frees_of-channel stun_text i (some c) = texts_freed stun_text i c
frees_of-channel (label_text j) i (some c) = ground (arith, texts_freed (label_text j) i c)
frees_of-channel (protocol_text j) i (some c) = ground (arith, texts_freed (protocol_text j) i c)
frees_of-channel peer_block i (some c) = texts_freed peer_block i c

-- The slot `i`, and those behind it.
pub held_between-suc :
    (b : Block) (i rounds : ℕ) (slot : Option Channel) (cs : List (Option Channel))
    → get_elem? cs i ≡ some slot
    → held_at i slot b + held_between rounds (suc i) cs b ≡ held_between (suc rounds) i cs b
held_between-suc stun_text i rounds slot cs e = refl
held_between-suc (label_text j) i rounds slot cs e = elim (ℕ_discrete j i) [
  | yes same ↦ rw same (rw e (ground arith))
  | no other ↦ ground (arith, other)
]
held_between-suc (protocol_text j) i rounds slot cs e = elim (ℕ_discrete j i) [
  | yes same ↦ rw same (rw e (ground arith))
  | no other ↦ ground (arith, other)
]
held_between-suc peer_block i rounds slot cs e = refl

pub held_between-zero : (b : Block) (i : ℕ) (cs : List (Option Channel)) → held_between 0 i cs b ≡ 0
held_between-zero stun_text i cs = refl
held_between-zero (label_text j) i cs = ground arith
held_between-zero (protocol_text j) i cs = ground arith
held_between-zero peer_block i cs = refl

pub elem_below :
    {A : Type 0} (xs : List A) (i : ℕ) → i < length xs → (x : A) × (get_elem? xs i ≡ some x)
elem_below [] i h = absurd (omega arith)
elem_below (x ∷ xs) zero h = (x, refl)
elem_below (x ∷ xs) (suc i) h = elem_below xs i (omega arith)

pub channels_freed :
    (rounds i : ℕ) (cs : List (Option Channel))
    → i + rounds ≤ length cs
    → (blocks : List Block) × (destroy_channels rounds i cs ≡ some blocks)
      × ((b : Block) → frees_of b blocks ≡ held_between rounds i cs b)
unfolding destroy_channels
channels_freed zero i cs h = ([], refl, λ b. unfold frees_of in sym (held_between-zero b i cs))
channels_freed (suc rounds) i cs h =
    let (slot, there) = elem_below cs i (omega arith) in
    let (rest, freed, counts) = channels_freed rounds (suc i) cs (omega arith) in
    (
      rtcdc_destroy_data_channel i slot ++ rest,
      rw (there, freed) refl,
      λ b. omega (
        arith,
        frees_of-append b (rtcdc_destroy_data_channel i slot) rest,
        frees_of-channel b i slot,
        counts b,
        held_between-suc b i rounds slot cs there,
      ),
    )

pub elem_beyond : (cs : List (Option Channel)) (i : ℕ) → length cs ≤ i → get_elem? cs i ≡ none
elem_beyond [] i h = refl
elem_beyond (x ∷ cs) zero h = absurd (omega arith)
elem_beyond (x ∷ cs) (suc i) h = elem_beyond cs i (omega arith)

-- Of a block of any slot of the table.
unfoldable pub held_in : List (Option Channel) → Block → ℕ
held_in cs stun_text = 0
held_in cs (label_text i) = label_in (get_elem? cs i)
held_in cs (protocol_text i) = protocol_in (get_elem? cs i)
held_in cs peer_block = 0

pub held_between_all :
    (b : Block) (cs : List (Option Channel)) (n : ℕ)
    → length cs ≡ n
    → held_between n 0 cs b ≡ held_in cs b
unfolding held_in
held_between_all stun_text cs n e = refl
held_between_all (label_text i) cs n e = elim (dec_lt i n) [
  | yes inside ↦ ground arith
  | no beyond ↦ let gone = elem_beyond cs i (omega arith) in rw gone (ground arith)
]
held_between_all (protocol_text i) cs n e = elim (dec_lt i n) [
  | yes inside ↦ ground arith
  | no beyond ↦ let gone = elem_beyond cs i (omega arith) in rw gone (ground arith)
]
held_between_all peer_block cs n e = refl
