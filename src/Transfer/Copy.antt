-- ===== src/Transfer/Copy.antt =====
-- What the receiver has on its disk when the sender is done.
use mathlib.Core.Path.{fun_ext, subst}
use librtcdc.Base.{
  HasNoNul, ℕ, zero, suc, ◌<◌, ◌≡◌, ◌≢◌, refl, sym, ap, Bool, true, false, inl, inr, Option, some,
  List, [], ◌∷◌, ◌++◌, append-nil, append_assoc, Bytes, arith, length, length-append, bytes_eq,
  bytes_eq_sound, bytes_eq_refl, Bool-cases, pos,
}
use librtcdc.Transfer.Lines.{
  read_line, fgets, strlen, HasNoNul-append, read_line-append, read_line-eof, take-strlen,
}
use librtcdc.Transfer.{
  Packet, Receiver, opened, store, append_to, write_packet, on_packet, upload_fs_on_message,
  receive_all, send_line, send_lines,
}

pub store-at :
    (path text : Bytes) (disk : Bytes → Option Bytes) → store path text disk path ≡ some text
unfolding store
store-at path text disk = rw (bytes_eq_refl path)

store-store :
    (path a b : Bytes) (disk : Bytes → Option Bytes)
    → store path a (store path b disk) ≡ store path a disk
unfolding store
store-store path a b disk = fun_ext (λ other. ground arith)

store_same :
    (path old : Bytes) (disk : Bytes → Option Bytes)
    → disk path ≡ some old
    → store path old disk ≡ disk
unfolding store
store_same path old disk h = fun_ext (λ other. elim (Bool-cases (bytes_eq path other)) [
  | inl hit ↦ rw hit (rw (bytes_eq_sound path other hit) at (sym h))
  | inr miss ↦ rw miss
])

-- The receiver with `text` in the file at `path`, which is open.
abbrev pub holding : Bytes → Bytes → (Bytes → Option Bytes) → Receiver
holding path text disk = record { disk = store path text disk; stream = opened path }

pub append_to-holding :
    (path old text : Bytes) (disk : Bytes → Option Bytes)
    → append_to (holding path old disk) path text ≡ holding path (old ++ text) disk
unfolding append_to
append_to-holding path old text disk =
    ground (arith, store-at path old disk, store-store path (old ++ text) old disk)

shorter :
    (chunk rest text : Bytes) (fuel : ℕ)
    → chunk ++ rest ≡ text
    → chunk ≢ []
    → length text < suc fuel
    → length rest < fuel
shorter [] rest text fuel e ne h = absurd (ne refl)
shorter (c ∷ chunk) rest text fuel e ne h = omega (arith, ap length e, length-append chunk rest)

read_line_rest :
    (room : ℕ) (text : Bytes)
    → (read_line (suc room) text).chunk ≡ []
    → (read_line (suc room) text).rest ≡ []
unfolding read_line
read_line_rest room [] h = refl
read_line_rest room (c ∷ text) h = ground arith

module _ (writable : Bytes → Bool) (repo path : Bytes) where
  pub receive_line :
      (i : ℕ) (chunk old : Bytes) (disk : Bytes → Option Bytes)
      → HasNoNul chunk
      → upload_fs_on_message writable repo
          (holding path old disk)
          (record { index = pos (suc i); buf = chunk; buf_len = strlen chunk })
        ≡ some (holding path (old ++ chunk) disk)
  unfolding upload_fs_on_message on_packet write_packet
  receive_line i chunk old disk nul =
      rw (take-strlen chunk nul) (ap some (append_to-holding path old chunk disk))

  abbrev pub IsSentWhole : Bytes → Option (List Packet) → Type 0
  IsSentWhole text sent =
      (lines : List Packet) × (sent ≡ some lines)
      × ((old : Bytes) (disk : Bytes → Option Bytes) (rest : List Packet)
          → receive_all writable repo (holding path old disk) (lines ++ rest)
            ≡ receive_all writable repo (holding path (old ++ text) disk) rest)

  IsSentWhole-nil : (text : Bytes) → text ≡ [] → IsSentWhole text (some [])
  IsSentWhole-nil text e = ([], refl, λ old disk rest. rw (e, append-nil old))

  IsSentWhole-line :
      (i : ℕ) (chunk more : Bytes) (sent : Option (List Packet))
      → HasNoNul chunk
      → (chunk ≡ [] → more ≡ [])
      → (chunk ≢ [] → IsSentWhole more sent)
      → IsSentWhole (chunk ++ more) (send_line (suc i) chunk sent)
  unfolding send_line
  IsSentWhole-line i [] more sent nul e go = IsSentWhole-nil more (e refl)
  IsSentWhole-line i (c ∷ chunk) more sent nul e go =
      let (lines, es, copy) = go (λ x. cc) in
      (
        record { index = pos (suc i); buf = c ∷ chunk; buf_len = strlen (c ∷ chunk) } ∷ lines,
        rw es,
        λ old disk rest.
            unfold receive_all in
            rw (receive_line i (c ∷ chunk) old disk nul)
              (rw append_assoc at (copy (old ++ (c ∷ chunk)) disk rest)),
      )

  -- With fuel for each byte the loop ends, and the receiver ends up with the text behind what it had.
  pub send_lines_copies :
      (fuel i : ℕ) (eof : Bool) (text : Bytes)
      → HasNoNul text
      → length text < fuel
      → (eof ≡ true → text ≡ [])
      → IsSentWhole text (send_lines fuel i eof text)
  unfolding send_lines fgets
  send_lines_copies zero i eof text nul h e = absurd (omega arith)
  send_lines_copies (suc fuel) i true text nul h e = IsSentWhole-nil text (e refl)
  send_lines_copies (suc fuel) i false text nul h e =
      let line = read_line 1207 text in
      let whole = read_line-append 1207 text in
      let (nul_chunk, nul_rest) = HasNoNul-append line.chunk line.rest (rw whole nul) in
      subst
        (λ t.
          IsSentWhole t (send_line (suc i) line.chunk (send_lines fuel (suc i) line.eof line.rest)))
        whole
        (IsSentWhole-line i line.chunk line.rest _ nul_chunk
          (λ none_left. read_line_rest 1206 text none_left)
          (λ some_left.
            send_lines_copies fuel (suc i) line.eof line.rest nul_rest
              (shorter line.chunk line.rest text fuel whole some_left h) (read_line-eof 1207 text)))
