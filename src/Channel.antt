-- ===== src/Channel.antt =====
-- The channel functions of src/rtcdc.c: rtcdc_create_data_channel and rtcdc_send_message.
pub mod Reach
pub mod Sids
pub mod Sending
use librtcdc.Base.{
  ℕ, ◌+◌, ◌%◌, Bool, true, false, not, Option, none, some, [], ◌∷◌, ◌++◌, Bytes, if◌then◌else◌,
  ◌==◌, length, set, ◌>>=◌,
}
use librtcdc.Peer.{
  ChannelState, connecting, Datatype, string, binary, empty, Status, success, failure, Channel,
  zeroed, Sctp, Peer, Env, max_channel_num, first_free, send_sctp_message,
}
use librtcdc.Dcep.{sizeof_channel, install}
use librtcdc.Dcep.Wire.{
  OpenMessage, write_open, sizeof_open, reliable, channel_open, control_ppid, string_ppid,
  binary_ppid, string_empty_ppid, binary_empty_ppid,
}

-- The arguments of rtcdc_create_data_channel behind the peer.
pub record Request : Type 0 where
  pub label : Option Bytes
  pub protocol : Option Bytes
  pub on_open : Option ℕ
  pub on_message : Option ℕ
  pub on_close : Option ℕ
  pub user_data : ℕ

-- The channel as it is filled in, with the next stream id.
unfoldable pub new_channel : Request → ℕ → Channel
new_channel r cursor = record zeroed {
  type = reliable;
  label = r.label;
  protocol = r.protocol;
  state = connecting;
  sid = cursor % 65536;
  on_open = r.on_open;
  on_message = r.on_message;
  on_close = r.on_close;
  user_data = r.user_data;
}

-- The OPEN message of a channel, with the texts of the label and the protocol.
unfoldable pub open_request : Bytes → Bytes → OpenMessage
open_request label protocol = record {
  message_type = channel_open;
  channel_type = reliable;
  priority = 0;
  reliability_param = 0;
  label_length = length label % 65536;
  protocol_length = length protocol % 65536;
  label_and_protocol = label ++ protocol;
}

-- sctp->stream_cursor += 2
abbrev pub advance : Sctp → Peer → Peer
advance s p = record p { transport = some (record s { stream_cursor = s.stream_cursor + 2 }) }

-- The end of the function: on an error the channel is freed, and NULL goes into the table.
unfoldable pub finish : ℕ → Channel → Status × Peer → Peer × Option Channel
finish i ch (success, p) = (install i (some ch) p, some ch)
finish i ch (failure, p) = (install i none p, none)

-- From the allocation of the request on, in slot `i`, with the texts that strlen has read.
unfoldable pub create_in : Env → Peer → Sctp → Request → Bytes → Bytes → ℕ → Peer × Option Channel
create_in env p s r label protocol i =
    if not (env.calloc (sizeof_open + length label + length protocol))
    then (install i none p, none)
    else finish i (new_channel r s.stream_cursor) (
        send_sctp_message env (advance s p) (some (write_open (open_request label protocol)))
          (s.stream_cursor % 65536) control_ppid)

-- With a peer: the peer and NULL, or the new channel, which also stands in the table. strlen of a
-- NULL label or protocol faults.
unfoldable pub create_data_channel : Env → Peer → Request → Option (Peer × Option Channel)
create_data_channel env p r = elim p.transport [
  | none ↦ some (p, none)
  | some s ↦
      if first_free p.channels == max_channel_num
      then some (p, none)
      else if not (env.calloc sizeof_channel)
      then some (p, none)
      else do
        label ← r.label
        protocol ← r.protocol
        some (create_in env p s r label protocol (first_free p.channels))
]

unfoldable pub rtcdc_create_data_channel :
    Env → Option Peer → Request → Option (Option Peer × Option Channel)
rtcdc_create_data_channel env none r = some (none, none)
rtcdc_create_data_channel env (some p) r = do
  result ← create_data_channel env p r
  some (some result.0, result.1)

-- data == NULL || len == 0
unfoldable pub is_empty : Option Bytes → Bool
is_empty none = true
is_empty (some []) = true
is_empty (some (b ∷ msg)) = false

-- The payload protocol id of a message; `none` for another datatype (here: EMPTY).
unfoldable pub ppid_of : Datatype → Option Bytes → Option ℕ
ppid_of string msg = some (if is_empty msg then string_empty_ppid else string_ppid)
ppid_of binary msg = some (if is_empty msg then binary_empty_ppid else binary_ppid)
ppid_of empty msg = none

unfoldable pub rtcdc_send_message :
    Env → Peer → Option Channel → Datatype → Option Bytes → Status × Peer
rtcdc_send_message env p none type msg = (failure, p)
rtcdc_send_message env p (some ch) type msg = elim (ppid_of type msg) [
  | none ↦ (failure, p)
  | some ppid ↦ send_sctp_message env p msg ch.sid ppid
]
