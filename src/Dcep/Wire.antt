-- ===== src/Dcep/Wire.antt =====
-- The messages of src/dcep.h, byte by byte. The 16- and 32-bit fields travel with the high byte first,
-- which is what htons, ntohs, htonl and ntohl are for; a field here is the host's number.
use librtcdc.Base.{
  ℕ, zero, suc, ◌+◌, ◌*◌, ◌/◌, ◌%◌, Option, none, some, [], ◌∷◌, ◌++◌, Bytes, if◌then◌else◌, ◌==◌,
  ◌>>=◌,
}

abbrev pub control_ppid : ℕ
control_ppid = 50

abbrev pub string_ppid : ℕ
string_ppid = 51

abbrev pub binary_partial_ppid : ℕ
binary_partial_ppid = 52

abbrev pub binary_ppid : ℕ
binary_ppid = 53

abbrev pub string_partial_ppid : ℕ
string_partial_ppid = 54

abbrev pub string_empty_ppid : ℕ
string_empty_ppid = 56

abbrev pub binary_empty_ppid : ℕ
binary_empty_ppid = 57

abbrev pub channel_open : ℕ
channel_open = 3

abbrev pub channel_ack : ℕ
channel_ack = 2

-- DATA_CHANNEL_RELIABLE
abbrev pub reliable : ℕ
reliable = 0

-- struct dcep_open_message
pub record OpenMessage : Type 0 where
  pub message_type : ℕ
  pub channel_type : ℕ
  pub priority : ℕ
  pub reliability_param : ℕ
  pub label_length : ℕ
  pub protocol_length : ℕ
  pub label_and_protocol : Bytes

-- sizeof (struct dcep_open_message)
abbrev pub sizeof_open : ℕ
sizeof_open = 12

abbrev pub be16 : ℕ → ℕ → ℕ
be16 high low = high * 256 + low

-- The bytes of a uint16_t in network order; a larger number is cut to 16 bits.
abbrev pub bytes16 : ℕ → Bytes
bytes16 n = (n / 256 % 256) ∷ (n % 256) ∷ []

abbrev pub bytes32 : ℕ → Bytes
bytes32 n = (n / 16777216 % 256) ∷ (n / 65536 % 256) ∷ (n / 256 % 256) ∷ (n % 256) ∷ []

unfoldable pub write_open : OpenMessage → Bytes
write_open m =
    (m.message_type % 256)
    ∷ (m.channel_type % 256)
    ∷ (bytes16 m.priority
        ++ (bytes32 m.reliability_param
            ++ (bytes16 m.label_length ++ (bytes16 m.protocol_length ++ m.label_and_protocol))))

-- The cast of the received bytes; `none` where they are fewer than the header.
unfoldable pub read_open : Bytes → Option OpenMessage
read_open (t ∷ c ∷ p1 ∷ p0 ∷ r3 ∷ r2 ∷ r1 ∷ r0 ∷ l1 ∷ l0 ∷ q1 ∷ q0 ∷ text) = some (record {
  message_type = t;
  channel_type = c;
  priority = be16 p1 p0;
  reliability_param = be16 r3 r2 * 65536 + be16 r1 r0;
  label_length = be16 l1 l0;
  protocol_length = be16 q1 q0;
  label_and_protocol = text;
})
read_open _ = none

-- strndup(text, n) reads up to n bytes and stops behind a NUL; a read past the buffer is `none`.
unfoldable pub strndup : Bytes → ℕ → Option Bytes
strndup text zero = some []
strndup [] (suc n) = none
strndup (c ∷ text) (suc n) =
    let rest = strndup text n in if c == 0 then some [] else (do s ← rest; some (c ∷ s))
