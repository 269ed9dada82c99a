-- ===== src/Dcep/RoundTrip.antt =====
-- What one peer writes into an OPEN message, the other peer reads out of it.
use librtcdc.Base.{
  HasNoNul, ℕ, ◌%◌, ◌<◌, ◌≤◌, ◌≡◌, ◌∙◌, refl, ap, true, Option, none, some, [], ◌∷◌, ◌++◌,
  append-nil, Bytes, arith, length, drop-length-append, set,
}
use librtcdc.Peer.{
  Channel, connected, zeroed, Event, Sctp, Peer, Env, max_channel_num, first_free, notify,
  notify_if, send_sctp_message,
}
use librtcdc.Dcep.{
  dup, allocate_new_data_channel, sizeof_channel, install, answer_open, accept_channel,
  handle_control, handle_rtcdc_open_request, handle_rtcdc_message,
}
use librtcdc.Dcep.Wire.{
  OpenMessage, write_open, read_open, strndup, control_ppid, reliable, sizeof_open, channel_ack,
}
use librtcdc.Channel.{open_request}

-- The fields are in the range of their C types.
pub record IsSized (m : OpenMessage) : Type 0 where
  pub message_type : m.message_type < 256
  pub channel_type : m.channel_type < 256
  pub priority : m.priority < 65536
  pub reliability_param : m.reliability_param < 4294967296
  pub label_length : m.label_length < 65536
  pub protocol_length : m.protocol_length < 65536

-- A message whose fields are in range is read back as it was written.
pub read_open-write_open : (m : OpenMessage) → IsSized m → read_open (write_open m) ≡ some m
unfolding read_open write_open
read_open-write_open m h = ground arith

-- A text without NUL is copied whole, whatever follows it.
pub strndup-append :
    (text rest : Bytes) → HasNoNul text → strndup (text ++ rest) (length text) ≡ some text
unfolding strndup
strndup-append [] rest h = refl
strndup-append (c ∷ text) rest h = ground (arith, strndup-append text rest h.1)

-- strndup is not called for an empty text, and the field stays NULL.
abbrev pub dup_of : Bytes → Option Bytes
dup_of [] = none
dup_of (c ∷ text) = some (c ∷ text)

-- The channel that the other side of an OPEN message gets.
abbrev pub accepted : Bytes → Bytes → ℕ → Channel
accepted label protocol sid = record zeroed {
  type = reliable;
  label = dup_of label;
  protocol = dup_of protocol;
  state = connected;
  sid = sid;
}

dup-append :
    (before text rest : Bytes)
    → HasNoNul text
    → dup (length text) (length before) (before ++ (text ++ rest)) ≡ some (dup_of text)
unfolding dup strndup
dup-append before [] rest h = refl
dup-append before (c ∷ text) rest h =
    rw drop-length-append (ground (arith, strndup-append text rest h.1, h.0))

open_request-IsSized : (label protocol : Bytes) → IsSized (open_request label protocol)
unfolding open_request
open_request-IsSized label protocol = omega arith

-- The texts that the header announces are the texts that were written.
allocate-open_request :
    (env : Env) (label protocol : Bytes) (sid : ℕ)
    → env.calloc sizeof_channel ≡ true
    → HasNoNul label
    → HasNoNul protocol
    → length label < 65536
    → length protocol < 65536
    → allocate_new_data_channel env (open_request label protocol) sid
      ≡ some (some (accepted label protocol sid))
unfolding allocate_new_data_channel open_request
allocate-open_request env label protocol sid room hl hp sl sp =
    let el : length label % 65536 ≡ length label = omega arith in
    let ep : length protocol % 65536 ≡ length protocol = omega arith in
    rw (el, ep, room, dup-append [] label protocol hl)
      (rw (rw append-nil at (dup-append label protocol [] hp)))

-- Where the guards pass, the message is read and a channel is allocated, it is installed.
handle_read :
    (env : Env) (p : Peer) (s : Sctp) (msg : Bytes) (m : OpenMessage) (ch : Channel) (sid : ℕ)
    → p.transport ≡ some s
    → first_free p.channels < max_channel_num
    → sizeof_open ≤ length msg
    → read_open msg ≡ some m
    → allocate_new_data_channel env m sid ≡ some (some ch)
    → handle_rtcdc_open_request env p sid msg
      ≡ some (
          answer_open env (install (first_free p.channels) (some ch) p) (first_free p.channels) sid)
unfolding handle_rtcdc_open_request accept_channel
handle_read env p s msg m ch sid ht hf hm hr ha = ground arith

-- The channel is installed, and the rest of the handler goes on.
pub handle-open_request :
    (env : Env) (p : Peer) (s : Sctp) (label protocol : Bytes) (sid : ℕ)
    → p.transport ≡ some s
    → first_free p.channels < max_channel_num
    → env.calloc sizeof_channel ≡ true
    → HasNoNul label
    → HasNoNul protocol
    → length label < 65536
    → length protocol < 65536
    → handle_rtcdc_message env p (write_open (open_request label protocol)) control_ppid sid
      ≡ some (
          answer_open env
            (install (first_free p.channels) (some (accepted label protocol sid)) p)
            (first_free p.channels)
            sid)
unfolding handle_rtcdc_message handle_control write_open open_request
handle-open_request env p s label protocol sid ht hf room hl hp sl sp =
    handle_read env p s (write_open (open_request label protocol)) (open_request label protocol) _
      sid ht hf (omega arith)
      (read_open-write_open (open_request label protocol) (open_request-IsSized label protocol))
      (allocate-open_request env label protocol sid room hl hp sl sp)

-- The peer with the channel in its first free slot, and the call of on_channel in its history.
abbrev pub with_channel_open : Peer → Channel → ℕ → Peer
with_channel_open p ch f = record p {
  channels = set p.channels (first_free p.channels) (some ch);
  events = p.events ++ Event.on_channel f (first_free p.channels) p.user_data ∷ [];
}

-- The callback is called, and then the acknowledgement goes out.
answer_calls :
    (env : Env) (p q : Peer) (w : Sctp) (f i sid : ℕ)
    → p.on_channel ≡ some f
    → env.callback
        (Event.on_channel f i p.user_data)
        (record p { events = p.events ++ Event.on_channel f i p.user_data ∷ [] })
      ≡ q
    → q.transport ≡ some w
    → w.deferred_messages ≡ true
    → w.handshake_done ≡ true
    → env.sendv sid control_ppid (some (channel_ack ∷ [])) ≡ true
    → answer_open env p i sid ≡ record q {
      events = q.events ++ Event.sendv sid control_ppid (some (channel_ack ∷ [])) ∷ [];
    }
unfolding answer_open notify_if notify send_sctp_message
answer_calls env p q w f i sid hf called hw hd hh taken =
    ground (arith, hf, called, hw, hd, hh, taken)

-- At a peer with a transport, a callback for channels, a free slot and memory for a channel, a received OPEN
-- message of a new channel, with texts that have no NUL and fit the 16-bit length fields, puts a
-- connected channel with the same label and protocol (NULL for an empty one) and the stream id into the first
-- free slot; then on_channel is called with that slot and the user data; and if SCTP is connected when
-- it returns, and usrsctp takes the message, then the acknowledgement is the next that goes out, on that stream.
pub open_request_answered :
    (env : Env) (p q : Peer) (s w : Sctp) (f : ℕ) (label protocol : Bytes) (sid : ℕ)
    → p.transport ≡ some s
    → p.on_channel ≡ some f
    → first_free p.channels < max_channel_num
    → env.calloc sizeof_channel ≡ true
    → HasNoNul label
    → HasNoNul protocol
    → length label < 65536
    → length protocol < 65536
    → env.callback
        (Event.on_channel f (first_free p.channels) p.user_data)
        (with_channel_open p (accepted label protocol sid) f)
      ≡ q
    → q.transport ≡ some w
    → w.deferred_messages ≡ true
    → w.handshake_done ≡ true
    → env.sendv sid control_ppid (some (channel_ack ∷ [])) ≡ true
    → handle_rtcdc_message env p (write_open (open_request label protocol)) control_ppid sid
      ≡ some (record q {
        events = q.events ++ Event.sendv sid control_ppid (some (channel_ack ∷ [])) ∷ [];
      })
open_request_answered env p q s w f label protocol sid ht hf free room hl hp sl sp called hw hd hh
      taken =
    let i = first_free p.channels in
    handle-open_request env p s label protocol sid ht free room hl hp sl sp
    ∙ ap some (
        answer_calls env (install i (some (accepted label protocol sid)) p) q w f i sid hf called hw
          hd hh taken)
