-- ===== src/Dcep/Faults.antt =====
-- handle_rtcdc_open_request trusts the lengths in the message: when it reads past the buffer.
use librtcdc.Base.{
  HasNoNul, ℕ, zero, suc, ◌+◌, ◌%◌, ◌==◌, ◌<◌, ◌≤◌, ◌≡◌, ◌≢◌, ◌↔◌, refl, true, none, some, [], ◌∷◌,
  Bytes, arith, length, drop,
}
use librtcdc.Peer.{Sctp, Peer, Env, max_channel_num, first_free}
use librtcdc.Dcep.{
  dup, allocate_new_data_channel, sizeof_channel, accept_channel, handle_control,
  handle_rtcdc_open_request, handle_rtcdc_message,
}
use librtcdc.Dcep.Wire.{
  OpenMessage, write_open, read_open, strndup, control_ppid, channel_open, sizeof_open,
}
use librtcdc.Dcep.RoundTrip.{IsSized, read_open-write_open}

strndup_total : (text : Bytes) (n : ℕ) → n ≤ length text → strndup text n ≢ none
unfolding strndup
strndup_total text zero h = λ e. cc
strndup_total [] (suc n) h = absurd (omega arith)
strndup_total (c ∷ text) (suc n) h = ground (arith, strndup_total text n)

strndup_faults : (text : Bytes) (n : ℕ) → HasNoNul text → length text < n → strndup text n ≡ none
unfolding strndup
strndup_faults text zero h l = absurd (omega arith)
strndup_faults [] (suc n) h l = refl
strndup_faults (c ∷ text) (suc n) h l = ground (arith, strndup_faults text n h.1, h.0)

length-drop : (n : ℕ) (text : Bytes) → n ≤ length text → length (drop n text) + n ≡ length text
length-drop zero text h = omega arith
length-drop (suc n) [] h = absurd (omega arith)
length-drop (suc n) (c ∷ text) h = omega (arith, length-drop n text)

drop-HasNoNul : (n : ℕ) (text : Bytes) → HasNoNul text → HasNoNul (drop n text)
drop-HasNoNul zero text h = h
drop-HasNoNul (suc n) [] h = h
drop-HasNoNul (suc n) (c ∷ text) h = drop-HasNoNul n text h.1

dup_total : (n k : ℕ) (text : Bytes) → k + n ≤ length text → dup n k text ≢ none
unfolding dup
dup_total n k text h = ground (arith, length-drop k text, strndup_total (drop k text) n)

dup_faults :
    (n k : ℕ) (text : Bytes)
    → HasNoNul text
    → k ≤ length text
    → length text < k + n
    → dup n k text ≡ none
unfolding dup
dup_faults n k text h hk l =
    ground (arith, length-drop k text hk, strndup_faults (drop k text) n (drop-HasNoNul k text h))

module _ (env : Env) (m : OpenMessage) (sid : ℕ) (room : env.calloc sizeof_channel ≡ true) where
  allocate_total :
      m.label_length + m.protocol_length ≤ length m.label_and_protocol
      → allocate_new_data_channel env m sid ≢ none
  unfolding allocate_new_data_channel
  allocate_total h = ground (
    arith,
    dup_total m.label_length 0 m.label_and_protocol,
    dup_total m.protocol_length m.label_length m.label_and_protocol,
  )

  allocate_faults :
      HasNoNul m.label_and_protocol
      → length m.label_and_protocol < m.label_length + m.protocol_length
      → allocate_new_data_channel env m sid ≡ none
  unfolding allocate_new_data_channel
  allocate_faults nul h = ground (
    arith,
    dup_faults m.label_length 0 m.label_and_protocol nul,
    dup_faults m.protocol_length m.label_length m.label_and_protocol nul,
  )

module _ (env : Env) (p : Peer) (s : Sctp) (m : OpenMessage) (sid : ℕ) where
  -- Behind the guards only the allocation can fault.
  handle_faults_iff :
      (msg : Bytes)
      → p.transport ≡ some s
      → first_free p.channels < max_channel_num
      → sizeof_open ≤ length msg
      → read_open msg ≡ some m
      → (handle_rtcdc_open_request env p sid msg ≡ none)
        ↔ (allocate_new_data_channel env m sid ≡ none)
  unfolding handle_rtcdc_open_request accept_channel
  handle_faults_iff msg ht hf hm hr = (λ e. ground arith, λ e. ground arith)

  -- An OPEN message whose texts hold no NUL makes the handler read outside the received buffer exactly
  -- when the lengths that it announces add up to more than the bytes behind its header. (There is a
  -- free slot and memory for the channel.)
  pub open_faults_iff :
      p.transport ≡ some s
      → first_free p.channels < max_channel_num
      → env.calloc sizeof_channel ≡ true
      → IsSized m
      → m.message_type ≡ channel_open
      → HasNoNul m.label_and_protocol
      → (handle_rtcdc_message env p (write_open m) control_ppid sid ≡ none)
        ↔ (length m.label_and_protocol < m.label_length + m.protocol_length)
  unfolding handle_rtcdc_message handle_control write_open
  open_faults_iff ht hf room hm ho nul =
      let is_open : (m.message_type % 256 == channel_open) ≡ true = ground arith in
      let read = read_open-write_open m hm in
      let iff = handle_faults_iff (write_open m) ht hf (omega arith) read in
      rw is_open (
        λ e. ground (arith, allocate_total env m sid room, iff.0 e),
        λ l. iff.1 (allocate_faults env m sid room nul l),
      )
