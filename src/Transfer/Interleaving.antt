-- ===== src/Transfer/Interleaving.antt =====
-- Two files that arrive at the same time, over two channels with the same callback.
use librtcdc.Base.{
  ℕ, suc, ◌<◌, ◌≡◌, ◌≢◌, refl, Bool, true, Option, some, [], ◌∷◌, ◌++◌, Bytes, HasNoNul, length,
  pos, bytes_eq, bytes_eq_sound, Bool-cases, inl, inr,
}
use librtcdc.Transfer.Lines.{strlen}
use librtcdc.Transfer.{Receiver, store, receive_all, local_path_size}
use librtcdc.Transfer.Copy.{holding, receive_line, store-at}
use librtcdc.Transfer.Whole.{receive_name}

store_other :
    (path other text : Bytes) (disk : Bytes → Option Bytes)
    → path ≢ other
    → store path text disk other ≡ disk other
unfolding store
store_other path other text disk ne = elim (Bool-cases (bytes_eq path other)) [
  | inl same ↦ absurd (ne (bytes_eq_sound path other same))
  | inr apart ↦ rw apart refl
]

-- If a second file begins before the first has ended, a line of the first is written to the second, and the
-- first stays empty.
pub interleaved_line :
    (writable : Bytes → Bool) (target first second chunk : Bytes) (i : ℕ) (r : Receiver)
    → HasNoNul first
    → HasNoNul second
    → HasNoNul chunk
    → length (target ++ first) < local_path_size
    → length (target ++ second) < local_path_size
    → writable (target ++ first) ≡ true
    → writable (target ++ second) ≡ true
    → target ++ second ≢ target ++ first
    → (q : Receiver) × (receive_all writable target r (
          record { index = pos 0; buf = first; buf_len = 0 }
          ∷ (record { index = pos 0; buf = second; buf_len = 0 }
              ∷ (record { index = pos (suc i); buf = chunk; buf_len = strlen chunk } ∷ [])))
        ≡ some q)
      × (q.disk (target ++ second) ≡ some chunk)
      × (q.disk (target ++ first) ≡ some [])
unfolding receive_all
interleaved_line writable target first second chunk i r ha hb hc fa fb wa wb ne =
    let a = target ++ first in
    let b = target ++ second in
    let begun = holding a [] r.disk in
    (
      holding b chunk begun.disk,
      rw
          (
            receive_name writable target r first ha fa wa,
            receive_name writable target begun second hb fb wb,
            receive_line writable target b i chunk [] begun.disk hc,
          )
          refl,
      store-at b chunk begun.disk,
      rw (store_other b a chunk begun.disk ne) (store-at a [] r.disk),
    )
