-- ===== src/Certificate.antt =====
-- The context of OpenSSL with its certificate: create_dtls_context of src/dtls.c. A write outside `fingerprint`
-- is `none`.
pub mod Fingerprint
use librtcdc.Base.{
  ℕ, ◌+◌, ◌/◌, ◌%◌, Bool, true, false, not, ◌&&◌, Option, none, some, List, [], ◌∷◌, Bytes,
  if◌then◌else◌, ltb, ◌>>=◌,
}

-- SHA256_FINGERPRINT_SIZE of src/dtls.h
abbrev pub fingerprint_size : ℕ
fingerprint_size = 96

-- Do the calls of OpenSSL and calloc succeed?
pub record Calls : Type 0 where
  pub has_common : Bool  -- common is not NULL
  pub alloc_context : Bool
  pub ctx_new : Bool
  pub set_cipher_list : Bool
  pub pkey_new : Bool
  pub exponent_new : Bool
  pub rsa_new : Bool
  pub set_word : Bool
  pub generate_key : Bool
  pub assign_rsa : Bool
  pub x509_new : Bool
  pub set_pubkey : Bool
  pub serial_number : Bool
  pub set_version : Bool
  pub set_names : Bool
  pub set_times : Bool
  pub sign : Bool
  pub check_private_key : Bool

unfoldable pub gen_key : Calls → Bool
gen_key o =
    o.pkey_new
    && (o.exponent_new && (o.rsa_new && (o.set_word && (o.generate_key && o.assign_rsa))))

unfoldable pub gen_cert : Calls → Bool
gen_cert o =
    o.x509_new
    && (o.set_pubkey
        && (o.serial_number && (o.set_version && (o.set_names && (o.set_times && o.sign)))))

-- A digit of "%02X"
abbrev pub upper_digit : ℕ → ℕ
upper_digit n = if ltb n 10 then 48 + n else 55 + n

-- The loop: snprintf(p, 4, "%02X:", ...) writes three characters at the offset, and a NUL behind them.
unfoldable pub fingerprint_loop : (size offset : ℕ) → Bytes → Option Bytes
fingerprint_loop size offset [] = some []
fingerprint_loop size offset (b ∷ digest) =
    let rest = fingerprint_loop size (offset + 3) digest in
    if ltb (offset + 3) size
    then (do more ← rest; some (upper_digit (b / 16 % 16) ∷ upper_digit (b % 16) ∷ 58 ∷ more))
    else none

-- *(p - 1) = 0 over the last colon; without one, it is a write before the array.
unfoldable pub cut_last : Bytes → Option Bytes
cut_last [] = none
cut_last (c ∷ []) = some []
cut_last (c ∷ d ∷ text) = do more ← cut_last (d ∷ text); some (c ∷ more)

unfoldable pub print_fingerprint : Bytes → Option Bytes
print_fingerprint digest = do text ← fingerprint_loop fingerprint_size 0 digest; cut_last text

unfoldable pub context_ready : Calls → Bool
context_ready o =
    o.has_common
    && (o.alloc_context
        && (o.ctx_new && (o.set_cipher_list && (gen_key o && (gen_cert o && o.check_private_key)))))

-- The fingerprint of the context, with the digest of the certificate; `some none` is NULL.
unfoldable pub create_dtls_context : Calls → Bytes → Option (Option Bytes)
create_dtls_context o digest =
    let printed = print_fingerprint digest in
    if context_ready o then (do text ← printed; some (some text)) else some none
