-- ===== src/Tests/Printing.antt =====
-- The fingerprint of a certificate.
use librtcdc.Base.{
  suc, ◌≡◌, ◌≤◌, ◌↔◌, ◌*◌, refl, true, none, some, [], ◌∷◌, Bytes, codes, length, replicate,
}
use librtcdc.Certificate.{
  Calls, fingerprint_size, create_dtls_context, print_fingerprint, fingerprint_loop, cut_last,
  context_ready, gen_key, gen_cert,
}
use librtcdc.Certificate.Fingerprint.{context_overruns_iff}

abbrev succeeding : Calls
succeeding = record {
  has_common = true;
  alloc_context = true;
  ctx_new = true;
  set_cipher_list = true;
  pkey_new = true;
  exponent_new = true;
  rsa_new = true;
  set_word = true;
  generate_key = true;
  assign_rsa = true;
  x509_new = true;
  set_pubkey = true;
  serial_number = true;
  set_version = true;
  set_names = true;
  set_times = true;
  sign = true;
  check_private_key = true;
}

two_bytes : create_dtls_context succeeding (10 ∷ 255 ∷ []) ≡ some (some (codes "0A:FF"))
unfolding create_dtls_context print_fingerprint fingerprint_loop cut_last context_ready gen_key
    gen_cert
two_bytes = refl

abbrev zeros : Bytes
zeros = replicate 31 0

context_overruns_iff_example :
    (create_dtls_context succeeding (171 ∷ zeros) ≡ none)
    ↔ (fingerprint_size ≤ 3 * suc (length zeros))
unfolding context_ready gen_key gen_cert
context_overruns_iff_example = context_overruns_iff succeeding 171 zeros refl
