-- ===== src/FileTrans/Receiving.antt =====
-- on_message of examples/file_trans/recv_file.c, for each kind of packet that send_file.c makes, where a NUL
-- stands behind every allocated block.
use librtcdc.Base.{
  ℕ, suc, ◌<◌, ◌≡◌, refl, ap, ◌∙◌, Bool, true, Option, some, [], ◌++◌, append-nil, Bytes, HasNoNul,
  length, pos, negsuc, arith,
}
use librtcdc.Transfer.{Receiver, closed, store, append_to}
use librtcdc.Transfer.Copy.{holding, append_to-holding}
use librtcdc.FileTrans.{
  SctpPacket, text_in, file_path, write_block, close_file, on_index, on_sctp_packet,
}
use librtcdc.FileTrans.Copies.{strlen_all, copied_text_whole}

module _ (writable : Bytes → Bool) (dir : Bytes) where
  pub receive_middle :
      (path old disk_text : Bytes) (disk : Bytes → Option Bytes) (i : ℕ)
      → HasNoNul disk_text
      → on_sctp_packet writable [] dir
          (holding path old disk)
          (record { index = pos (suc i); contents = disk_text; data_len = length disk_text })
        ≡ some (holding path (old ++ disk_text) disk)
  unfolding on_sctp_packet on_index write_block
  receive_middle path old chunk disk i h =
      let k : SctpPacket = record {
        index = pos (suc i);
        contents = chunk;
        data_len = length chunk;
      } in
      ap (λ t. some (append_to (holding path old disk) path t)) (copied_text_whole k h refl)
      ∙ ap some (append_to-holding path old chunk disk)

  pub receive_last :
      (path old chunk : Bytes) (disk : Bytes → Option Bytes)
      → HasNoNul chunk
      → on_sctp_packet writable [] dir
          (holding path old disk)
          (record { index = negsuc 0; contents = chunk; data_len = length chunk })
        ≡ some (record { disk = store path (old ++ chunk) disk; stream = closed })
  unfolding on_sctp_packet on_index write_block close_file append_to
  receive_last path old chunk disk h =
      let k : SctpPacket = record { index = negsuc 0; contents = chunk; data_len = length chunk } in
      ap (λ t. let w = append_to (holding path old disk) path t in close_file w w.stream)
        (copied_text_whole k h refl)
      ∙ ap (λ (w : Receiver). close_file w w.stream) (append_to-holding path old chunk disk)

  pub receive_path :
      (path : Bytes) (r : Receiver)
      → HasNoNul path
      → length (dir ++ path) < 128
      → writable (dir ++ path) ≡ true
      → on_sctp_packet writable [] dir r
          (record { index = pos 0; contents = path; data_len = length path })
        ≡ some (holding (dir ++ path) [] r.disk)
  unfolding on_sctp_packet on_index file_path text_in
  receive_path path r h fits may =
      let k : SctpPacket = record { index = pos 0; contents = path; data_len = length path } in
      rw (copied_text_whole k h refl, strlen_all path h, append-nil path) (ground arith)
