-- ===== src/Transfer/Sendable.antt =====
-- The packets that the sending loops make fit struct sctp_packet_t.
use librtcdc.Base.{
  ℕ, zero, suc, ◌+◌, ◌≤◌, ◌<◌, ◌≡◌, refl, Bool, true, false, Option, none, some, List, [], ◌∷◌,
  ◌++◌, Bytes, All, arith, length, length-append, pos, negsuc, Option-cases, inl, inr, Bool-cases,
}
use librtcdc.Transfer.Lines.{read_line, fgets, strlen}
use librtcdc.Transfer.Packing.{IsSendable, strlen_bounds}
use librtcdc.Transfer.{
  FileStatus, DiffInfo, Packet, send_line, send_lines, send_file, send_files, local_file_path,
  local_path_size,
}

chunk_fits : (room : ℕ) (text : Bytes) → length (read_line room text).chunk ≤ room
unfolding read_line
chunk_fits zero text = omega arith
chunk_fits (suc room) [] = omega arith
chunk_fits (suc room) (c ∷ text) = ground (arith, chunk_fits room text)

All-append :
    (xs ys : List Packet) → All IsSendable xs → All IsSendable ys → All IsSendable (xs ++ ys)
All-append [] ys h k = k
All-append (x ∷ xs) ys h k = (h.0, All-append xs ys h.1 k)

-- A packet with a line of at most 1208 bytes.
line-IsSendable :
    (i : ℕ) (chunk : Bytes)
    → i < 2147483648
    → length chunk ≤ 1208
    → IsSendable (record { index = pos i; buf = chunk; buf_len = strlen chunk })
line-IsSendable i chunk h fits = record { index = h; fits = fits; announced = strlen_bounds chunk }

send_line-IsSendable :
    (i : ℕ) (chunk : Bytes) (sent : Option (List Packet)) (packets : List Packet)
    → i < 2147483648
    → length chunk ≤ 1208
    → ((lines : List Packet) → sent ≡ some lines → All IsSendable lines)
    → send_line i chunk sent ≡ some packets
    → All IsSendable packets
unfolding send_line
send_line-IsSendable i [] sent packets h fits rest e = ground arith
send_line-IsSendable i (c ∷ chunk) none packets h fits rest e = cc
send_line-IsSendable i (c ∷ chunk) (some lines) packets h fits rest e =
    let first = line-IsSendable i (c ∷ chunk) h fits in
    let later = rest lines refl in ground (arith, first, later)

send_lines-IsSendable :
    (fuel i : ℕ) (eof : Bool) (text : Bytes) (packets : List Packet)
    → i + fuel < 2147483648
    → send_lines fuel i eof text ≡ some packets
    → All IsSendable packets
unfolding send_lines fgets
send_lines-IsSendable zero i eof text packets h e = cc
send_lines-IsSendable (suc fuel) i true text packets h e = ground arith
send_lines-IsSendable (suc fuel) i false text packets h e =
    let line = read_line 1207 text in
    let fits = chunk_fits 1207 text in
    send_line-IsSendable (suc i) line.chunk (send_lines fuel (suc i) line.eof line.rest) packets
      (omega arith) (omega (arith, fits))
      (λ lines sent. send_lines-IsSendable fuel (suc i) line.eof line.rest lines (omega arith) sent)
      e

send_file-IsSendable :
    (name text : Bytes) (packets : List Packet)
    → length name ≤ 1208
    → length text < 2147483647
    → send_file name text ≡ some packets
    → All IsSendable packets
unfolding send_file
send_file-IsSendable name text packets hn ht e =
    elim (Option-cases (send_lines (suc (length text)) 0 false text)) [
      | inl out ↦ cc (rw out at e)
      | inr (lines, sent) ↦
          let body =
            send_lines-IsSendable (suc (length text)) 0 false text lines (omega arith) sent in
          let end : Packet = record { index = negsuc 0; buf = []; buf_len = 0 } in
          let last : IsSendable end = record {
            index = omega arith;
            fits = omega arith;
            announced = omega arith;
          } in
          let all = All-append lines (end ∷ []) body (last, tt) in
          let first : IsSendable (record { index = pos 0; buf = name; buf_len = 0 }) = record {
            index = omega arith;
            fits = hn;
            announced = omega arith;
          } in
          ground (arith, first, all)
    ]

-- The files can be read by the loops without an index that leaves the range of an int.
pub record IsShort (open_read : Bytes → Option Bytes) (repo : Bytes) (file : DiffInfo)
    : Type 0 where
  pub source : length (repo ++ file.filename) < local_path_size
  pub text : (t : Bytes) → open_read (repo ++ file.filename) ≡ some t → length t < 2147483647

-- The packets of a transfer of such files fit.
pub send_files-IsSendable :
    (wanted : FileStatus → Bool) (open_read : Bytes → Option Bytes) (repo : Bytes)
    (files : List DiffInfo) (packets : List Packet)
    → All (IsShort open_read repo) files
    → send_files wanted open_read repo files ≡ some packets
    → All IsSendable packets
unfolding send_files local_file_path
send_files-IsSendable wanted open_read repo [] packets h e = ground arith
send_files-IsSendable wanted open_read repo (file ∷ files) packets h e =
    let path = repo ++ file.filename in
    let room : length file.filename ≤ 1208 =
      omega (arith, length-append repo file.filename, h.0.source) in
    elim (Option-cases (send_files wanted open_read repo files)) [
      | inl out ↦ cc (rw out at e)
      | inr (rest, sent) ↦
          let later = send_files-IsSendable wanted open_read repo files rest h.1 sent in
          elim (Bool-cases (wanted file.dirty)) [
            | inr skip ↦ ground (arith, h.0.source, later)
            | inl want ↦ elim (Option-cases (open_read path)) [
              | inl missing ↦ ground (arith, h.0.source, later)
              | inr (text, read) ↦ elim (Option-cases (send_file file.filename text)) [
                | inl out ↦ ground (arith, h.0.source)
                | inr (first, made) ↦
                    let mine =
                      send_file-IsSendable file.filename text first room (h.0.text text read)
                        made in
                    ground (arith, h.0.source, All-append first rest mine later)
              ]
            ]
          ]
    ]
