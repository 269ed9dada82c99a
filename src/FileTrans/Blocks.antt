-- ===== src/FileTrans/Blocks.antt =====
-- What arrives of a file that is sent block by block, where a NUL stands behind every allocated block.
use mathlib.Core.Path.{subst}
use native.Mathlib.Decide.{dec_lt}
use native.Mathlib.Nat.{mod-eq_of_lt}
use librtcdc.Base.{
  ℕ, zero, suc, ◌+◌, ◌%◌, ◌<◌, ◌≡◌, ◌≢◌, refl, ap, sym, ◌∙◌, Bool, true, Option, some, List, [],
  ◌∷◌, ◌++◌, append-nil, append_assoc, Bytes, HasNoNul, if◌then◌else◌, ◌==◌, length, length-append,
  drop, ◌>>=◌, pos, negsuc, arith, inl, inr, Bool-cases, Option-cases,
}
use librtcdc.Transfer.Lines.{take, HasNoNul-append}
use librtcdc.Transfer.{Receiver, Stream, opened, closed, store}
use librtcdc.Transfer.Copy.{holding}
use librtcdc.FileTrans.{
  SctpPacket, block_size, copy_block, path_packet, send_block, on_read_file, on_open_file,
  receive_blocks,
}
use librtcdc.FileTrans.Copies.{
  take-append-drop, length-take, drop_short, path_packet_fits, some_inj, send_full, send_short,
  mod_add_self,
}
use librtcdc.FileTrans.Receiving.{receive_middle, receive_last, receive_path}

-- The stream at the end: only a block that is not full closes the file.
abbrev pub ended : ℕ → ℕ → Bytes → Stream
ended size n path = if n % size == 0 then opened path else closed

module _ (writable : Bytes → Bool) (dir : Bytes) where
  -- The packets of the text, and what the receiver has when they have come in.
  abbrev pub IsSentOn : ℕ → Bytes → Bytes → Option (List SctpPacket) → Type 0
  IsSentOn size path text sent =
      (packets : List SctpPacket) × (sent ≡ some packets)
      × ((old : Bytes) (disk : Bytes → Option Bytes)
          → receive_blocks writable [] dir (holding path old disk) packets
            ≡ some (record {
              disk = store path (old ++ text) disk;
              stream = ended size (length text) path;
            }))

  sent_full :
      (size fuel i : ℕ) (name path chunk rest : Bytes)
      → 0 < size
      → HasNoNul chunk
      → length chunk ≡ size
      → IsSentOn size path rest (on_read_file fuel [] size name (suc (suc i)) rest)
      → IsSentOn size path (chunk ++ rest) (do
        sent ← send_block [] size name (suc i) chunk
        later ← on_read_file fuel [] size name sent.1 rest
        some (sent.0 ++ later))
  unfolding receive_blocks
  sent_full size fuel i name path chunk rest p h full (packets, run, receive) =
      let k : SctpPacket = record {
        index = pos (suc i);
        contents = chunk;
        data_len = length chunk;
      } in
      let same : ended size (length (chunk ++ rest)) path ≡ ended size (length rest) path =
        ap (λ n. ended size n path) (length-append chunk rest ∙ ap (λ n. n + length rest) full)
        ∙ ap (λ n. if n == 0 then opened path else closed) (mod_add_self size (length rest) p) in
      (
        k ∷ packets,
        rw (send_full size i name chunk h full, run) refl,
        λ old disk.
            rw (receive_middle writable dir path old chunk disk i h, same)
              (rw append_assoc at (receive (old ++ chunk) disk)),
      )

  sent_short :
      (size fuel i : ℕ) (name path chunk : Bytes)
      → HasNoNul chunk
      → 0 < length chunk
      → length chunk < size
      → IsSentOn size path chunk (do
        sent ← send_block [] size name (suc i) chunk
        later ← on_read_file (suc fuel) [] size name sent.1 []
        some (sent.0 ++ later))
  unfolding receive_blocks on_read_file
  sent_short size fuel i name path chunk h some_bytes short =
      let k : SctpPacket = record { index = negsuc 0; contents = chunk; data_len = length chunk } in
      let small = mod-eq_of_lt short in
      let same : ended size (length chunk) path ≡ closed =
        ap (λ n. if n == 0 then opened path else closed) small ∙ (ground arith) in
      (
        k ∷ [],
        rw (send_short size i name chunk h short) refl,
        λ old disk. rw (receive_last writable dir path old chunk disk h, same) refl,
      )

  sends_rest :
      (size fuel i : ℕ) (name path text : Bytes)
      → 0 < size
      → HasNoNul text
      → length text < fuel
      → IsSentOn size path text (on_read_file fuel [] size name (suc i) text)
  unfolding on_read_file
  sends_rest size zero i name path text p h f = absurd (omega arith)
  sends_rest size (suc fuel) i name path [] p h f =
      ([], refl, λ old disk. unfold receive_blocks in rw (append-nil old, mod-eq_of_lt p) refl)
  sends_rest size (suc zero) i name path (c ∷ text) p h f = absurd (omega arith)
  sends_rest size (suc (suc fuel)) i name path (c ∷ text) p h f =
      let all = c ∷ text in
      let whole = take-append-drop size all in
      let (nul, nul_rest) = HasNoNul-append (take size all) (drop size all) (rw whole h) in
      let few = length-take size all in
      let parts = length-append (take size all) (drop size all) in
      let total = ap length whole in
      elim (dec_lt (length (take size all)) size) [
        | yes short ↦
            let gone = drop_short size all short in
            let chunk_is : take size all ≡ all =
              sym (append-nil (take size all)) ∙ ap (λ r. take size all ++ r) (sym gone) ∙ whole in
            rw (gone, chunk_is)
              (sent_short size fuel i name path all h (omega arith) (rw chunk_is at short))
        | no full ↦
            let rest =
              sends_rest size (suc fuel) (suc i) name path (drop size all) p nul_rest
                (omega (arith, few, parts, total)) in
            subst
              (λ t. IsSentOn size path t (do
                sent ← send_block [] size name (suc i) (take size all)
                later ← on_read_file (suc fuel) [] size name sent.1 (drop size all)
                some (sent.0 ++ later)))
              whole
              (sent_full size (suc fuel) i name path (take size all) (drop size all) p nul
                (omega (arith, few)) rest)
      ]

-- The first read sends the path and goes on like any other.
first_read :
    (size fuel : ℕ) (name text : Bytes) (first : SctpPacket) (packets : List SctpPacket)
    → text ≢ []
    → path_packet size name ≡ some first
    → on_read_file fuel [] size name 1 text ≡ some packets
    → on_read_file fuel [] size name 0 text ≡ some (first ∷ packets)
unfolding on_read_file send_block
first_read size zero name text first packets ne made run = cc
first_read size (suc fuel) name [] first packets ne made run = absurd (ne refl)
first_read size (suc fuel) name (c ∷ text) first packets ne made run =
    elim (Option-cases (copy_block [] size (take size (c ∷ text)))) [
      | inl out ↦ cc (rw out at run)
      | inr (chunk, copied) ↦ elim (Bool-cases (length (take size (c ∷ text)) == size)) [
        | inl full ↦ elim (Option-cases (on_read_file fuel [] size name 2 (drop size (c ∷ text)))) [
          | inl out ↦ cc (rw (copied, full, out) at run)
          | inr (rest, later) ↦
              rw (made, copied, full, later)
                (ap (λ t. some (first ∷ t)) (some_inj _ _ (rw (copied, full, later) at run)))
        ]
        | inr short ↦
            elim (Option-cases (on_read_file fuel [] size name 1 (drop size (c ∷ text)))) [
              | inl out ↦ cc (rw (copied, short, out) at run)
              | inr (rest, later) ↦
                  rw (made, copied, short, later)
                    (ap (λ t. some (first ∷ t)) (some_inj _ _ (rw (copied, short, later) at run)))
            ]
      ]
    ]

-- If a NUL stands behind every allocated block, the path has no NUL and fits its buffers, the receiver may write
-- there, and the file has no NUL, then a file with at least one byte is sent and received without a fault, and
-- fwrite is given the whole file there and nothing else. If its size is no multiple of 1200, then it is
-- closed too, and so stands on the disk whole. Otherwise it stays open, and what stdio holds of it in the
-- buffer of the stream is not yet on the disk.
pub file_arrives :
    (writable : Bytes → Bool) (dir path text : Bytes) (r : Receiver)
    → text ≢ []
    → HasNoNul text
    → HasNoNul path
    → length path < block_size
    → length (dir ++ path) < 128
    → writable (dir ++ path) ≡ true
    → (packets : List SctpPacket) × (q : Receiver) × (on_open_file [] path text ≡ some packets)
      × (receive_blocks writable [] dir r packets ≡ some q)
      × (q.disk ≡ store (dir ++ path) text r.disk)
      × (q.stream ≡ (if length text % block_size == 0 then opened (dir ++ path) else closed))
unfolding on_open_file receive_blocks
file_arrives writable dir path text r some_bytes nul nul_path short fits may =
    let first : SctpPacket = record { index = pos 0; contents = path; data_len = length path } in
    let made = path_packet_fits block_size path short in
    let (packets, run, receive) =
      sends_rest writable dir block_size (suc (length text)) 0 path (dir ++ path) text (omega arith)
        nul (omega arith) in
    (
      first ∷ packets,
      _,
      first_read block_size (suc (length text)) path text first packets some_bytes made run,
      rw (receive_path writable dir path r nul_path fits may) (receive [] r.disk),
      refl,
      refl,
    )

-- A file without a byte is not sent at all.
pub empty_file_lost : (path : Bytes) → on_open_file [] path [] ≡ some []
unfolding on_open_file on_read_file
empty_file_lost path = refl
