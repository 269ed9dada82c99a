-- ===== src/Transfer/Packing.antt =====
-- struct sctp_packet_t of APIs/sy_rtcdc.h as the bytes of a message: rtcdc_send_message is given the struct
-- and its size, and a receiving callback casts the message back. An int has 32 bits, the lowest first.
use librtcdc.Base.{
  ℕ, zero, suc, ◌+◌, ◌*◌, ◌/◌, ◌%◌, ◌-◌, ◌≤◌, ◌<◌, ◌≡◌, refl, ap, Bool, Option, none, some, [], ◌∷◌,
  ◌++◌, Bytes, arith, length, drop, ltb, if◌then◌else◌, ℤ, pos, negsuc, drop-length-append,
}
use librtcdc.Transfer.Lines.{strlen, take}
use librtcdc.Transfer.{
  Packet, Receiver, Stream, null, opened, closed, sctp_buf_size, write_packet, on_packet,
  upload_fs_on_message,
}

-- The 32 bits of an int, and back.
unfoldable pub word_of : ℤ → ℕ
word_of (pos n) = n % 4294967296
word_of (negsuc n) = 4294967295 - n % 4294967296

unfoldable pub int_of : ℕ → ℤ
int_of w = if ltb w 2147483648 then pos w else negsuc (4294967295 - w)

-- An int that is used as a size_t.
unfoldable pub size_of : ℕ → ℕ
size_of w = if ltb w 2147483648 then w else w + 18446744069414584320

abbrev pub le32 : ℕ → Bytes
le32 w = (w % 256) ∷ (w / 256 % 256) ∷ (w / 65536 % 256) ∷ (w / 16777216 % 256) ∷ []

abbrev pub word : ℕ → ℕ → ℕ → ℕ → ℕ
word a b c d = a + b * 256 + c * 65536 + d * 16777216

-- What stands in a buffer of `n` bytes that was zero before `buf` was written.
unfoldable pub padded : ℕ → Bytes → Bytes
padded zero buf = []
padded (suc n) [] = 0 ∷ padded n []
padded (suc n) (c ∷ buf) = c ∷ padded n buf

unfoldable pub packet_bytes : Packet → Bytes
packet_bytes p =
    le32 (word_of p.index) ++ (padded sctp_buf_size p.buf ++ le32 (p.buf_len % 4294967296))

-- With the index and the buffer, from `buf_len` on.
unfoldable pub packet_end : ℤ → Bytes → Bytes → Option Packet
packet_end index buf (a ∷ b ∷ c ∷ d ∷ rest) =
    some (record { index = index; buf = buf; buf_len = size_of (word a b c d) })
packet_end index buf _ = none

-- The cast; `none` where the message is shorter than the struct.
unfoldable pub packet_of : Bytes → Option Packet
packet_of (a ∷ b ∷ c ∷ d ∷ rest) =
    packet_end (int_of (word a b c d)) (take sctp_buf_size rest) (drop sctp_buf_size rest)
packet_of _ = none

-- An index that an int holds.
abbrev pub IsInt : ℤ → Type 0
IsInt (pos n) = n < 2147483648
IsInt (negsuc n) = n < 2147483648

-- The text fits the buffer, its length is not announced longer, and the index is an int.
pub record IsSendable (p : Packet) : Type 0 where
  pub index : IsInt p.index
  pub fits : length p.buf ≤ 1208
  pub announced : p.buf_len ≤ length p.buf

int_of-word_of : (i : ℤ) → IsInt i → (w : ℕ) → w ≡ word_of i → int_of w ≡ i
unfolding int_of word_of
int_of-word_of (pos n) h w e = ground arith
int_of-word_of (negsuc n) h w e = ground arith

word-le32 :
    (w : ℕ)
    → w < 4294967296
    → word (w % 256) (w / 256 % 256) (w / 65536 % 256) (w / 16777216 % 256) ≡ w
word-le32 w h = omega arith

word_of-lt : (i : ℤ) → word_of i < 4294967296
unfolding word_of
word_of-lt (pos n) = omega arith
word_of-lt (negsuc n) = omega arith

length-padded : (n : ℕ) (buf : Bytes) → length (padded n buf) ≡ n
unfolding padded
length-padded zero buf = refl
length-padded (suc n) [] = ap suc (length-padded n [])
length-padded (suc n) (c ∷ buf) = ap suc (length-padded n buf)

take-length-append : (xs ys : Bytes) (n : ℕ) → n ≡ length xs → take n (xs ++ ys) ≡ xs
take-length-append [] ys zero e = refl
take-length-append [] ys (suc n) e = absurd (omega arith)
take-length-append (x ∷ xs) ys zero e = absurd (omega arith)
take-length-append (x ∷ xs) ys (suc n) e = ap (◌∷◌ x) (take-length-append xs ys n (omega arith))

drop-length-append_lem : (xs ys : Bytes) (n : ℕ) → n ≡ length xs → drop n (xs ++ ys) ≡ ys
drop-length-append_lem xs ys n e = rw e (drop-length-append xs ys)

size_of_small : (n : ℕ) → n < 2147483648 → size_of (n % 4294967296) ≡ n
unfolding size_of
size_of_small n h = ground arith

-- A packet whose text fits its buffer, which announces no more than the text, and whose index an int holds is
-- read back from its bytes, with the buffer filled up with zeros.
pub packet_of-packet_bytes :
    (p : Packet)
    → IsSendable p
    → packet_of (packet_bytes p) ≡ some (record p { buf = padded sctp_buf_size p.buf })
unfolding packet_of packet_bytes packet_end
packet_of-packet_bytes p h =
    let w = word_of p.index in
    let n = p.buf_len % 4294967296 in
    let full = length-padded sctp_buf_size p.buf in
    rw
      (
        word-le32 w (word_of-lt p.index),
        int_of-word_of p.index h.index w refl,
        take-length-append (padded sctp_buf_size p.buf) (le32 n) sctp_buf_size
            (omega (arith, full)),
        drop-length-append_lem (padded sctp_buf_size p.buf) (le32 n) sctp_buf_size
            (omega (arith, full)),
        word-le32 n (omega arith),
        size_of_small p.buf_len (omega (arith, h.announced, h.fits)),
      )
      refl

pub strlen_bounds : (buf : Bytes) → strlen buf ≤ length buf
unfolding strlen
strlen_bounds [] = omega arith
strlen_bounds (c ∷ buf) = ground (arith, strlen_bounds buf)

strlen-padded : (n : ℕ) (buf : Bytes) → length buf ≤ n → strlen (padded n buf) ≡ strlen buf
unfolding strlen padded
strlen-padded zero [] h = refl
strlen-padded zero (c ∷ buf) h = absurd (omega arith)
strlen-padded (suc n) [] h = ground arith
strlen-padded (suc n) (c ∷ buf) h = ground (arith, strlen-padded n buf)

take-padded :
    (n k : ℕ) (buf : Bytes) → length buf ≤ n → k ≤ length buf → take k (padded n buf) ≡ take k buf
unfolding padded
take-padded n zero buf h g = refl
take-padded n (suc k) [] h g = absurd (omega arith)
take-padded zero (suc k) (c ∷ buf) h g = absurd (omega arith)
take-padded (suc n) (suc k) (c ∷ buf) h g =
    ap (◌∷◌ c) (take-padded n k buf (omega arith) (omega arith))

write_packet-padded :
    (r : Receiver) (p : Packet) (f : Stream)
    → IsSendable p
    → write_packet r (record p { buf = padded sctp_buf_size p.buf }) f ≡ write_packet r p f
unfolding write_packet
write_packet-padded r p null h = refl
write_packet-padded r p closed h = refl
write_packet-padded r p (opened path) h =
    rw (take-padded sctp_buf_size p.buf_len p.buf h.fits h.announced)

on_packet-padded :
    (writable : Bytes → Bool) (repo : Bytes) (r : Receiver) (p : Packet) (i : ℤ)
    → IsSendable p
    → on_packet writable repo r (record p { buf = padded sctp_buf_size p.buf }) i
      ≡ on_packet writable repo r p i
unfolding on_packet
on_packet-padded writable repo r p (pos zero) h = rw (
  strlen-padded sctp_buf_size p.buf h.fits,
  take-padded sctp_buf_size (strlen p.buf) p.buf h.fits (strlen_bounds p.buf),
)
on_packet-padded writable repo r p (pos (suc n)) h = write_packet-padded r p r.stream h
on_packet-padded writable repo r p (negsuc zero) h = refl
on_packet-padded writable repo r p (negsuc (suc n)) h = refl

-- A receiver does with it what it would do with the packet itself.
pub on_message-padded :
    (writable : Bytes → Bool) (repo : Bytes) (r : Receiver) (p : Packet)
    → IsSendable p
    → upload_fs_on_message writable repo r (record p { buf = padded sctp_buf_size p.buf })
      ≡ upload_fs_on_message writable repo r p
unfolding upload_fs_on_message
on_message-padded writable repo r p h = on_packet-padded writable repo r p p.index h
