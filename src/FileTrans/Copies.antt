-- ===== src/FileTrans/Copies.antt =====
-- The calls of the string functions on a block, and one packet at a time.
use native.Mathlib.Nat.{mod-eq-sub-mod}
use librtcdc.Base.{
  ℕ, zero, suc, ◌+◌, ◌%◌, ◌<◌, ◌≤◌, ◌≡◌, refl, ap, ◌∙◌, some, List, [], ◌∷◌, ◌++◌, Bytes, HasNoNul,
  length, drop, pos, negsuc, arith,
}
use librtcdc.Transfer.Lines.{strlen, take, take-strlen}
use librtcdc.Transfer.Packing.{padded}
use librtcdc.FileTrans.{SctpPacket, copy_block, path_packet, send_block, copied_text}

pub strlen_all : (text : Bytes) → HasNoNul text → strlen text ≡ length text
unfolding strlen
strlen_all [] h = refl
strlen_all (c ∷ text) h = ground (arith, strlen_all text h.1, h.0)

pub take-append-drop : (n : ℕ) (text : Bytes) → take n text ++ drop n text ≡ text
take-append-drop zero text = refl
take-append-drop (suc n) [] = refl
take-append-drop (suc n) (c ∷ text) = ap (◌∷◌ c) (take-append-drop n text)

pub length-take : (n : ℕ) (text : Bytes) → length (take n text) ≤ n
length-take zero text = omega arith
length-take (suc n) [] = omega arith
length-take (suc n) (c ∷ text) = omega (arith, length-take n text)

-- A block that is not full is the last.
pub drop_short : (n : ℕ) (text : Bytes) → length (take n text) < n → drop n text ≡ []
drop_short zero text h = absurd (omega arith)
drop_short (suc n) [] h = refl
drop_short (suc n) (c ∷ text) h = drop_short n text (omega arith)

pub padded_whole : (text : Bytes) → padded (length text) text ≡ text
unfolding padded
padded_whole [] = refl
padded_whole (c ∷ text) = ap (◌∷◌ c) (padded_whole text)

pub copied_text_whole :
    (k : SctpPacket)
    → HasNoNul k.contents
    → k.data_len ≡ length k.contents
    → copied_text k ≡ k.contents
copied_text_whole k h e =
    ap (λ n. padded n (take (strlen k.contents) k.contents)) e
    ∙ ap (padded (length k.contents)) (take-strlen k.contents h)
    ∙ padded_whole k.contents

pub copy_block_whole :
    (size : ℕ) (chunk : Bytes) → HasNoNul chunk → copy_block [] size chunk ≡ some chunk
unfolding copy_block
copy_block_whole size chunk h = ground (arith, take-strlen chunk h)

pub path_packet_fits :
    (size : ℕ) (path : Bytes)
    → length path < size
    → path_packet size path
      ≡ some (record { index = pos 0; contents = path; data_len = length path })
unfolding path_packet
path_packet_fits size path h = ground arith

pub some_inj : (x y : List SctpPacket) → some x ≡ some y → x ≡ y
some_inj x y e = cc

pub send_full :
    (size i : ℕ) (name chunk : Bytes)
    → HasNoNul chunk
    → length chunk ≡ size
    → send_block [] size name (suc i) chunk
      ≡ some (
        record { index = pos (suc i); contents = chunk; data_len = length chunk } ∷ [],
        suc (suc i),
      )
unfolding send_block
send_full size i name chunk h full = ground (arith, copy_block_whole size chunk h)

pub send_short :
    (size i : ℕ) (name chunk : Bytes)
    → HasNoNul chunk
    → length chunk < size
    → send_block [] size name (suc i) chunk
      ≡ some (record { index = negsuc 0; contents = chunk; data_len = length chunk } ∷ [], suc i)
unfolding send_block
send_short size i name chunk h short = ground (arith, copy_block_whole size chunk h)

pub mod_add_self : (size n : ℕ) → 0 < size → (size + n) % size ≡ n % size
mod_add_self size n p = grind (arith, mod-eq-sub-mod)
