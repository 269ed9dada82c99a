-- ===== src/FileTrans.antt =====
-- The example examples/file_trans: send_file.c reads a file block by block and sends the blocks, recv_file.c
-- writes what arrives. What stands in memory behind an allocated block, up to the next NUL, is `behind`.
pub mod Copies
pub mod Receiving
pub mod Blocks
pub mod Signal
pub mod Sharing
pub mod Main
pub mod Steps
pub mod Meeting
use librtcdc.Base.{
  ℕ, zero, suc, ◌+◌, Bool, true, false, Option, none, some, List, [], ◌∷◌, ◌++◌, Bytes,
  if◌then◌else◌, ltb, leb, ◌==◌, length, drop, ◌>>=◌, ℤ, pos, negsuc,
}
use librtcdc.Transfer.Lines.{strlen, take}
use librtcdc.Transfer.Packing.{padded}
use librtcdc.Transfer.{Receiver, Stream, null, opened, closed, store, append_to}

-- BUFFER_SIZE
abbrev pub block_size : ℕ
block_size = 1200

-- struct sctp_packet. Of `data` only what was written into it is kept.
pub record SctpPacket : Type 0 where
  pub index : ℤ
  pub contents : Bytes
  pub data_len : ℕ

-- strcpy(packet_instance->data, iov.base): a block that is not full is followed by zeros. Up to three bytes
-- and the NUL behind `data` fall on data_len, which is written later; more is `none`.
unfoldable pub copy_block : Bytes → ℕ → Bytes → Option Bytes
copy_block behind size chunk =
    if ltb (strlen chunk) size
    then some (take (strlen chunk) chunk)
    else if ltb (length behind) 4
    then some chunk
    else none

-- strcpy of the path of the file into a packet.
unfoldable pub path_packet : ℕ → Bytes → Option SctpPacket
path_packet size path =
    if ltb (length path) size
    then some (record { index = pos 0; contents = path; data_len = length path })
    else none

-- What one read that gives bytes sends, and the next packet_index. The first packet is behind the path.
unfoldable pub send_block : Bytes → ℕ → Bytes → ℕ → Bytes → Option (List SctpPacket × ℕ)
send_block behind size path zero chunk = do
  first ← path_packet size path
  text ← copy_block behind size chunk
  if length chunk == size
      then some
          (first ∷ (record { index = pos 1; contents = text; data_len = length chunk } ∷ []), 2)
      else some
          (first ∷ (record { index = negsuc 0; contents = text; data_len = length chunk } ∷ []), 1)
send_block behind size path (suc i) chunk = do
  text ← copy_block behind size chunk
  if length chunk == size
      then some (
        record { index = pos (suc i); contents = text; data_len = length chunk } ∷ [],
        suc (suc i),
      )
      else some (record { index = negsuc 0; contents = text; data_len = length chunk } ∷ [], suc i)

-- on_read_file, which asks for the next read as long as a read gives bytes; `none` is also that the fuel
-- ran out.
unfoldable pub on_read_file : ℕ → Bytes → ℕ → Bytes → ℕ → Bytes → Option (List SctpPacket)
on_read_file zero behind size path index text = none
on_read_file (suc fuel) behind size path index [] = some []
on_read_file (suc fuel) behind size path index (c ∷ text) = do
  sent ← send_block behind size path index (take size (c ∷ text))
  rest ← on_read_file fuel behind size path sent.1 (drop size (c ∷ text))
  some (sent.0 ++ rest)

-- on_open_file, of a file that can be read. The receiver gives it its path.
unfoldable pub on_open_file : Bytes → Bytes → Bytes → Option (List SctpPacket)
on_open_file behind path text = on_read_file (suc (length text)) behind block_size path 0 text

-- strncpy into a block of data_len bytes.
abbrev pub copied_text : SctpPacket → Bytes
copied_text k = padded k.data_len (take (strlen k.contents) k.contents)

-- strcat of the block, which ends at its first NUL or goes on behind it.
unfoldable pub text_in : Bytes → Bytes → Bytes
text_in behind msg = if ltb (strlen msg) (length msg) then take (strlen msg) msg else msg ++ behind

-- The path of a file, in 128 bytes.
unfoldable pub file_path : Bytes → Bytes → Bytes → Option Bytes
file_path behind dir msg =
    if ltb (length (dir ++ text_in behind msg)) 128 then some (dir ++ text_in behind msg) else none

unfoldable pub write_block : Receiver → Bytes → Stream → Option Receiver
write_block r msg null = none
write_block r msg closed = none
write_block r msg (opened path) = some (append_to r path msg)

unfoldable pub close_file : Receiver → Stream → Option Receiver
close_file r null = none
close_file r closed = none
close_file r (opened path) = some (record r { stream = closed })

-- on_message of recv_file.c, by the index.
unfoldable pub on_index : (Bytes → Bool) → Bytes → Bytes → Receiver → Bytes → ℤ → Option Receiver
on_index writable behind dir r msg (pos zero) = do
  path ← file_path behind dir msg
  if writable path
      then some (record { disk = store path [] r.disk; stream = opened path })
      else some (record r { stream = null })
on_index writable behind dir r msg (pos (suc n)) = write_block r msg r.stream
on_index writable behind dir r msg (negsuc zero) = do
  written ← write_block r msg r.stream
  close_file written written.stream
on_index writable behind dir r msg (negsuc (suc n)) = some r

unfoldable pub on_sctp_packet :
    (Bytes → Bool) → Bytes → Bytes → Receiver → SctpPacket → Option Receiver
on_sctp_packet writable behind dir r k = on_index writable behind dir r (copied_text k) k.index

unfoldable pub receive_blocks :
    (Bytes → Bool) → Bytes → Bytes → Receiver → List SctpPacket → Option Receiver
receive_blocks writable behind dir r [] = some r
receive_blocks writable behind dir r (k ∷ packets) = do
  next ← on_sctp_packet writable behind dir r k
  receive_blocks writable behind dir next packets
