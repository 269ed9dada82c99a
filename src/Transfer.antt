-- ===== src/Transfer.antt =====
-- The file transfer over a data channel: the sending loops of APIs/cli/cli_rtcdc.c (upload) and
-- APIs/fs/fs_rtcdc.c (download), and the receiving callbacks on the other side.
pub mod Lines
pub mod Copy
pub mod Whole
pub mod Packing
pub mod Sendable
pub mod Interleaving
use librtcdc.Base.{
  ℕ, zero, suc, ◌+◌, Bool, true, false, Option, none, some, List, [], ◌∷◌, ◌++◌, Bytes,
  if◌then◌else◌, ◌==◌, ltb, length, bytes_eq, ◌>>=◌, ℤ, pos, negsuc,
}
use librtcdc.Transfer.Lines.{fgets, strlen, take}

-- FILEstatus of APIs/common.h
pub data FileStatus : Type 0 where
  clean client_lack fs_lack dirty : FileStatus

-- struct diff_info_t
pub record DiffInfo : Type 0 where
  pub filename : Bytes
  pub dirty : FileStatus

-- struct sctp_packet_t. Of `buf` only what was written into it is kept: zeros follow.
pub record Packet : Type 0 where
  pub index : ℤ
  pub buf : Bytes
  pub buf_len : ℕ

-- SCTP_BUF_SIZE
abbrev pub sctp_buf_size : ℕ
sctp_buf_size = 1208

-- LOCAL_PATH_SIZE
abbrev pub local_path_size : ℕ
local_path_size = 64

-- strcpy and strcat into a buffer of LOCAL_PATH_SIZE; a path that does not fit is `none`.
unfoldable pub local_file_path : Bytes → Bytes → Option Bytes
local_file_path repo name =
    if ltb (length (repo ++ name)) local_path_size then some (repo ++ name) else none

-- One round of the loop: NULL from fgets breaks it, else the line is sent and the loop goes on.
unfoldable pub send_line : ℕ → Bytes → Option (List Packet) → Option (List Packet)
send_line index [] rest = some []
send_line index (c ∷ chunk) rest = do
  more ← rest
  some (record { index = pos index; buf = c ∷ chunk; buf_len = strlen (c ∷ chunk) } ∷ more)

-- The loop over the lines of an open file: packet_index, the end-of-file flag and what is left of the
-- file. Each round reads a byte or ends the loop; `none` means that the fuel ran out.
unfoldable pub send_lines : ℕ → ℕ → Bool → Bytes → Option (List Packet)
send_lines zero index eof text = none
send_lines (suc fuel) index true text = some []
send_lines (suc fuel) index false text =
    let line = fgets sctp_buf_size text in
    let rest = send_lines fuel (suc index) line.eof line.rest in
    send_line (suc index) line.chunk rest

-- The packets of one file: its name with index 0, its lines, and the end with index -1.
unfoldable pub send_file : Bytes → Bytes → Option (List Packet)
send_file name text = do
  lines ← send_lines (suc (length text)) 0 false text
  some (
      record { index = pos 0; buf = name; buf_len = 0 }
      ∷ (lines ++ record { index = negsuc 0; buf = []; buf_len = 0 } ∷ []))

-- The loop over the files of the difference. `open_read path` is the contents of the file that fopen
-- opens, or NULL; `wanted` is the test on the status.
unfoldable pub send_files :
    (FileStatus → Bool) → (Bytes → Option Bytes) → Bytes → List DiffInfo → Option (List Packet)
send_files wanted open_read repo [] = some []
send_files wanted open_read repo (file ∷ files) = do
  rest ← send_files wanted open_read repo files
  path ← local_file_path repo file.filename
  if wanted file.dirty
      then elim (open_read path) [
        | none ↦ some rest
        | some text ↦ do packets ← send_file file.filename text; some (packets ++ rest)
      ]
      else some rest

unfoldable pub upload_wanted : FileStatus → Bool
upload_wanted fs_lack = true
upload_wanted dirty = true
upload_wanted clean = false
upload_wanted client_lack = false

unfoldable pub download_wanted : FileStatus → Bool
download_wanted client_lack = true
download_wanted dirty = true
download_wanted clean = false
download_wanted fs_lack = false

-- The packets, and `exit_thread` of the peer at the end.
unfoldable pub uv_client_upload :
    (Bytes → Option Bytes) → Bytes → List DiffInfo → Option (List Packet × Bool)
uv_client_upload open_read repo files = do
  packets ← send_files upload_wanted open_read repo files
  some (packets, true)

unfoldable pub uv_fs_download :
    (Bytes → Option Bytes) → Bytes → List DiffInfo → Option (List Packet)
uv_fs_download = send_files download_wanted

-- The static `pFILE` of a receiving callback.
pub data Stream : Type 0 where
  null : Stream
  opened : Bytes → Stream
  closed : Stream

-- The files of the receiver, by path, with all that fwrite was given. Of the file of an open stream the C library
-- may still hold a part in its buffer; fclose writes that to the disk.
pub record Receiver : Type 0 where
  pub disk : Bytes → Option Bytes
  pub stream : Stream

unfoldable pub store : Bytes → Bytes → (Bytes → Option Bytes) → Bytes → Option Bytes
store path text disk other = if bytes_eq path other then some text else disk other

-- fwrite at the end of the open file, into the buffer of its stream or through it to the disk.
unfoldable pub append_to : Receiver → Bytes → Bytes → Receiver
append_to r path text = elim (r.disk path) [
  | none ↦ record r { disk = store path text r.disk }
  | some old ↦ record r { disk = store path (old ++ text) r.disk }
]

unfoldable pub write_packet : Receiver → Packet → Stream → Option Receiver
write_packet r packet null = none
write_packet r packet closed = none
write_packet r packet (opened path) = some (append_to r path (take packet.buf_len packet.buf))

unfoldable pub close_stream : Receiver → Stream → Option Receiver
close_stream r null = none
close_stream r closed = none
close_stream r (opened path) = some (record r { stream = closed })

-- upload_fs_on_message and download_client_on_message, which are alike. `writable path` says whether
-- fopen opens the path for writing; a fault (no open file, or a path that does not fit) is `none`.
unfoldable pub on_packet : (Bytes → Bool) → Bytes → Receiver → Packet → ℤ → Option Receiver
on_packet writable repo r packet (pos zero) = do
  path ← local_file_path repo (take (strlen packet.buf) packet.buf)
  if writable path
      then some (record { disk = store path [] r.disk; stream = opened path })
      else some (record r { stream = null })
on_packet writable repo r packet (pos (suc n)) = write_packet r packet r.stream
on_packet writable repo r packet (negsuc zero) = close_stream r r.stream
on_packet writable repo r packet (negsuc (suc n)) = some r

unfoldable pub upload_fs_on_message : (Bytes → Bool) → Bytes → Receiver → Packet → Option Receiver
upload_fs_on_message writable repo r packet = on_packet writable repo r packet packet.index

unfoldable pub receive_all : (Bytes → Bool) → Bytes → Receiver → List Packet → Option Receiver
receive_all writable repo r [] = some r
receive_all writable repo r (packet ∷ packets) = do
  next ← upload_fs_on_message writable repo r packet
  receive_all writable repo next packets
