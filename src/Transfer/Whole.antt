-- ===== src/Transfer/Whole.antt =====
-- Whole transfers: the files that the difference selects, one after the other.
use librtcdc.Base.{
  HasNoNul, suc, ◌<◌, ◌≡◌, refl, ◌∙◌, Bool, true, false, ◌⊎◌, inl, inr, Option, none, some, List,
  [], ◌∷◌, ◌++◌, append_assoc, Bytes, All, arith, if◌then◌else◌, length, pos, negsuc, Bool-cases,
  Option-cases,
}
use librtcdc.Transfer.Lines.{take-strlen}
use librtcdc.Transfer.{
  FileStatus, DiffInfo, Packet, Receiver, closed, store, close_stream, on_packet,
  upload_fs_on_message, receive_all, send_file, send_files, local_file_path, local_path_size,
}
use librtcdc.Transfer.Copy.{holding, send_lines_copies}

local_file_path_fits :
    (repo name : Bytes)
    → length (repo ++ name) < local_path_size
    → local_file_path repo name ≡ some (repo ++ name)
unfolding local_file_path
local_file_path_fits repo name h = ground arith

module _ (writable : Bytes → Bool) (target : Bytes) where
  -- The first packet of a file empties it, whatever the stream was before.
  pub receive_name :
      (r : Receiver) (name : Bytes)
      → HasNoNul name
      → length (target ++ name) < local_path_size
      → writable (target ++ name) ≡ true
      → upload_fs_on_message writable target r (record { index = pos 0; buf = name; buf_len = 0 })
        ≡ some (holding (target ++ name) [] r.disk)
  unfolding upload_fs_on_message on_packet
  receive_name r name nul fits w =
      rw (take-strlen name nul, local_file_path_fits target name fits, w)

  -- The packets of one file leave the file with the sender's contents, and closed.
  send_file_copies :
      (name text : Bytes)
      → HasNoNul name
      → HasNoNul text
      → length (target ++ name) < local_path_size
      → writable (target ++ name) ≡ true
      → (packets : List Packet) × (send_file name text ≡ some packets)
        × ((r : Receiver) (rest : List Packet)
            → receive_all writable target r (packets ++ rest)
              ≡ receive_all writable target
                  (record { disk = store (target ++ name) text r.disk; stream = closed })
                  rest)
  unfolding send_file
  send_file_copies name text nul_name nul_text fits w =
      let path = target ++ name in
      let (lines, es, copy) =
        send_lines_copies writable target path (suc (length text)) 0 false text nul_text
          (omega arith) (λ x. cc) in
      let end : Packet = record { index = negsuc 0; buf = []; buf_len = 0 } in
      (
        record { index = pos 0; buf = name; buf_len = 0 } ∷ (lines ++ end ∷ []),
        rw es,
        λ r rest.
            unfold receive_all upload_fs_on_message on_packet close_stream in
            rw (take-strlen name nul_name, local_file_path_fits target name fits, w, append_assoc)
              (copy [] r.disk (end ∷ rest)),
      )

-- The disk of the receiver after a transfer: the wanted files that the sender can open are stored, under
-- their names, and nothing else changes.
pub copied :
    (FileStatus → Bool)
    → (Bytes → Option Bytes)
    → (repo target : Bytes) → List DiffInfo
    → (Bytes → Option Bytes)
    → Bytes
    → Option Bytes
copied wanted open_read repo target [] disk = disk
copied wanted open_read repo target (file ∷ files) disk =
    let next : Bytes → Option Bytes = elim (open_read (repo ++ file.filename)) [
      | none ↦ disk
      | some text ↦ store (target ++ file.filename) text disk
    ] in
    copied wanted open_read repo target files (if wanted file.dirty then next else disk)

-- A file that the transfer can carry: a name without NUL, paths that fit the buffers on both sides,
-- contents without NUL, and a path that the receiver can open for writing.
pub record IsPlain (writable : Bytes → Bool) (open_read : Bytes → Option Bytes)
    (repo target : Bytes) (file : DiffInfo) : Type 0 where
  pub name : HasNoNul file.filename
  pub source : length (repo ++ file.filename) < local_path_size
  pub fits : length (target ++ file.filename) < local_path_size
  pub may_write : writable (target ++ file.filename) ≡ true
  pub text : (t : Bytes) → open_read (repo ++ file.filename) ≡ some t → HasNoNul t

module _ (wanted : FileStatus → Bool) (writable : Bytes → Bool) (open_read : Bytes → Option Bytes)
    (repo target : Bytes) where
  abbrev IsCarriedOver : List DiffInfo → Type 0
  IsCarriedOver files =
      (packets : List Packet) × (send_files wanted open_read repo files ≡ some packets)
      × ((r : Receiver)
          → (q : Receiver) × (receive_all writable target r packets ≡ some q)
            × (q.disk ≡ copied wanted open_read repo target files r.disk))

  carries_skip :
      (file : DiffInfo) (files : List DiffInfo)
      → IsPlain writable open_read repo target file
      → (wanted file.dirty ≡ false) ⊎ (open_read (repo ++ file.filename) ≡ none)
      → IsCarriedOver files
      → IsCarriedOver (file ∷ files)
  unfolding send_files copied
  carries_skip file files plain skip (packets, es, run) = (
    packets,
    rw (es, local_file_path_fits repo file.filename plain.source) (ground arith),
    λ r. let (q, eq, ed) = run r in (q, eq, ground arith),
  )

  carries_file :
      (file : DiffInfo) (files : List DiffInfo) (text : Bytes)
      → IsPlain writable open_read repo target file
      → wanted file.dirty ≡ true
      → open_read (repo ++ file.filename) ≡ some text
      → IsCarriedOver files
      → IsCarriedOver (file ∷ files)
  unfolding send_files copied
  carries_file file files text plain want read (packets, es, run) =
      let (sent, eq, copy) =
        send_file_copies writable target file.filename text plain.name (plain.text text read)
          plain.fits plain.may_write in
      (
        sent ++ packets,
        rw (es, local_file_path_fits repo file.filename plain.source, want, read, eq),
        λ r.
            let next : Receiver = record {
              disk = store (target ++ file.filename) text r.disk;
              stream = closed;
            } in
            let (q, run_q, disk_q) = run next in
            (q, copy r packets ∙ run_q, rw (want, read) disk_q),
      )

  carries_files :
      (files : List DiffInfo)
      → All (IsPlain writable open_read repo target) files
      → IsCarriedOver files
  carries_files [] h = unfold send_files receive_all copied in ([], refl, λ r. (r, refl, refl))
  carries_files (file ∷ files) h =
      let rest = carries_files files h.1 in
      elim (Bool-cases (wanted file.dirty)) [
        | inr unwanted ↦ carries_skip file files h.0 (inl unwanted) rest
        | inl want ↦ elim (Option-cases (open_read (repo ++ file.filename))) [
          | inl missing ↦ carries_skip file files h.0 (inr missing) rest
          | inr (text, read) ↦ carries_file file files text h.0 want read rest
        ]
      ]

  -- A transfer of plain files sends its packets, and a receiver takes them all without a fault and ends
  -- with the disk on which just the wanted files that the sender can open are stored, whole.
  pub send_files_copies :
      (files : List DiffInfo) (r : Receiver)
      → All (IsPlain writable open_read repo target) files
      → (packets : List Packet) × (q : Receiver) × (send_files wanted open_read repo files
          ≡ some packets)
        × (receive_all writable target r packets ≡ some q)
        × (q.disk ≡ copied wanted open_read repo target files r.disk)
  send_files_copies files r h =
      let (packets, sent, run) = carries_files files h in
      let (q, received, disk) = run r in (packets, q, sent, received, disk)
