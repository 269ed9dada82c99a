-- ===== src/Dcep.antt =====
-- src/dcep.c and src/dcep.h: the data channel establishment protocol. A run that reads outside the
-- received buffer, or through NULL, is `none`.
pub mod Wire
pub mod RoundTrip
pub mod Invariant
pub mod Keeps
pub mod Faults
pub mod Dispatch
use Prim.Native.Nat.{bit_and}
use librtcdc.Base.{
  ℕ, Bool, true, false, not, ◌||◌, Option, none, some, List, [], ◌∷◌, Bytes, if◌then◌else◌, ◌==◌,
  ltb, length, set, ◌>>=◌, drop,
}
use librtcdc.Peer.{
  ChannelState, closed, connected, Datatype, string, binary, empty, Status, success, failure,
  Channel, zeroed, Event, Peer, Env, max_channel_num, notify_if, first_free, find_sid,
  send_sctp_message,
}
use librtcdc.Dcep.Wire.{
  OpenMessage, read_open, sizeof_open, strndup, control_ppid, string_ppid, binary_partial_ppid,
  binary_ppid, string_partial_ppid, string_empty_ppid, binary_empty_ppid, channel_open, channel_ack,
}

-- strndup of a part of `label_and_protocol`, if its length is not 0.
unfoldable pub dup : ℕ → ℕ → Bytes → Option (Option Bytes)
dup n offset text =
    if ltb 0 n then (do s ← strndup (drop offset text) n; some (some s)) else some none

-- sizeof (struct rtcdc_data_channel), on a 64-bit machine
abbrev pub sizeof_channel : ℕ
sizeof_channel = 88

-- `some none` is the NULL that is returned where calloc fails.
unfoldable pub allocate_new_data_channel : Env → OpenMessage → ℕ → Option (Option Channel)
allocate_new_data_channel env m sid = if not (env.calloc sizeof_channel) then some none else do
  label ← dup m.label_length 0 m.label_and_protocol
  protocol ← dup m.protocol_length m.label_length m.label_and_protocol
  some (
      some (record zeroed {
        type = m.channel_type;
        priority = m.priority;
        rtx = if bit_and m.channel_type 1 == 0 then 0 else m.reliability_param;
        lifetime =
            if bit_and m.channel_type 1 == 0
            then (if bit_and m.channel_type 2 == 0 then 0 else m.reliability_param)
            else 0;
        label = label;
        protocol = protocol;
        state = connected;
        sid = sid;
      }))

-- peer->channels[i] = ch; a write behind the table makes it longer.
abbrev pub install : ℕ → Option Channel → Peer → Peer
install i ch p = record p { channels = set p.channels i ch }

-- From the new channel's entry in the table to the end: the callback, then the acknowledgement.
unfoldable pub answer_open : Env → Peer → ℕ → ℕ → Peer
answer_open env p i sid =
    (send_sctp_message env (notify_if env p.on_channel (λ f. Event.on_channel f i p.user_data) p)
      (some (channel_ack ∷ [])) sid control_ppid).1

-- From the allocation to the end.
unfoldable pub accept_channel : Env → Peer → ℕ → Option Channel → Option Peer
accept_channel env p sid none = some p
accept_channel env p sid (some c) = elim p.transport [
  | none ↦ none
  | some sctp ↦
      some
        (answer_open env (install (first_free p.channels) (some c) p) (first_free p.channels) sid)
]

unfoldable pub handle_rtcdc_open_request : Env → Peer → ℕ → Bytes → Option Peer
handle_rtcdc_open_request env p sid msg =
    if ltb (length msg) sizeof_open
    then some p
    else if first_free p.channels == max_channel_num
    then some p
    else do m ← read_open msg; ch ← allocate_new_data_channel env m sid; accept_channel env p sid ch

unfoldable pub acknowledge : Env → Peer → Option (ℕ × Channel) → Peer
acknowledge env p none = p
acknowledge env p (some (i, c)) =
    notify_if env c.on_open (λ f. Event.on_open f i c.user_data)
      (install i (some (record c { state = connected })) p)

unfoldable pub handle_rtcdc_open_ack : Env → Peer → ℕ → Peer
handle_rtcdc_open_ack env p sid = acknowledge env p (find_sid sid p.channels)

unfoldable pub reopened : ChannelState → ChannelState
reopened closed = connected
reopened s = s

unfoldable pub deliver : Env → Peer → Datatype → Bytes → Option (ℕ × Channel) → Peer
deliver env p type msg none = p
deliver env p type msg (some (i, c)) =
    notify_if env c.on_message (λ f. Event.on_message f i type msg c.user_data)
      (install i (some (record c { state = reopened c.state })) p)

unfoldable pub handle_rtcdc_data : Env → Peer → ℕ → Datatype → Bytes → Peer
handle_rtcdc_data env p sid type msg = deliver env p type msg (find_sid sid p.channels)

-- case WEBRTC_CONTROL_PPID
unfoldable pub handle_control : Env → Peer → ℕ → Bytes → Option Peer
handle_control env p sid [] = none
handle_control env p sid (t ∷ rest) =
    if t == channel_open
    then handle_rtcdc_open_request env p sid (t ∷ rest)
    else if t == channel_ack
    then some (handle_rtcdc_open_ack env p sid)
    else some p

unfoldable pub handle_rtcdc_message : Env → Peer → Bytes → (ppid sid : ℕ) → Option Peer
handle_rtcdc_message env p msg ppid sid =
    if ppid == control_ppid
    then handle_control env p sid msg
    else if ppid == string_ppid || ppid == string_partial_ppid
    then some (handle_rtcdc_data env p sid string msg)
    else if ppid == binary_ppid || ppid == binary_partial_ppid
    then some (handle_rtcdc_data env p sid binary msg)
    else if ppid == string_empty_ppid || ppid == binary_empty_ppid
    then some (handle_rtcdc_data env p sid empty msg)
    else some p

-- src/sctp.c: the callback that usrsctp calls with each message. `notification` is MSG_NOTIFICATION
-- in the flags, and the peer is the user data; a NULL peer is `none`.
unfoldable pub sctp_data_received_cb :
    Env → Option Peer → Bytes → Bool → (ppid sid : ℕ) → Option (Status × Option Peer)
sctp_data_received_cb env none msg notification ppid sid = some (failure, none)
sctp_data_received_cb env (some p) [] notification ppid sid = some (failure, some p)
sctp_data_received_cb env (some p) (b ∷ msg) true ppid sid = some (success, some p)
sctp_data_received_cb env (some p) (b ∷ msg) false ppid sid = do
  q ← handle_rtcdc_message env p (b ∷ msg) ppid sid
  some (success, some q)
