-- ===== src/Dcep/Dispatch.antt =====
-- Which messages reach a channel, and with which datatype.
use librtcdc.Base.{ℕ, ◌≡◌, ◌≢◌, none, some, [], ◌∷◌, Bytes, arith, if◌then◌else◌}
use librtcdc.Peer.{
  Datatype, string, binary, empty, Channel, Event, Peer, Env, notify, notify_if, find_sid,
}
use librtcdc.Dcep.{
  install, reopened, deliver, acknowledge, handle_control, handle_rtcdc_message, handle_rtcdc_data,
  handle_rtcdc_open_ack,
}
use librtcdc.Dcep.Wire.{control_ppid, channel_ack}
use librtcdc.Channel.{is_empty, ppid_of}

-- The datatype of a message on arrival: an empty message has lost its own.
abbrev pub arrives_as : Datatype → Bytes → Datatype
arrives_as type msg = if is_empty (some msg) then empty else type

-- A message sent with the payload protocol id of its datatype and contents reaches the callback of
-- the first channel with the stream id, with its contents, and with its datatype unless it is empty;
-- the channel, if it was closed, is connected again.
pub message_delivered :
    (env : Env) (p : Peer) (type : Datatype) (msg : Bytes) (ppid sid i f : ℕ) (c : Channel)
    → ppid_of type (some msg) ≡ some ppid
    → find_sid sid p.channels ≡ some (i, c)
    → c.on_message ≡ some f
    → handle_rtcdc_message env p msg ppid sid
      ≡ some (
          notify env
            (Event.on_message f i (arrives_as type msg) msg c.user_data)
            (install i (some (record c { state = reopened c.state })) p))
unfolding handle_rtcdc_message handle_rtcdc_data deliver ppid_of is_empty notify_if
message_delivered env p string [] ppid sid i f c e hf hc = ground arith
message_delivered env p binary [] ppid sid i f c e hf hc = ground arith
message_delivered env p empty [] ppid sid i f c e hf hc = cc
message_delivered env p string (b ∷ msg) ppid sid i f c e hf hc = ground arith
message_delivered env p binary (b ∷ msg) ppid sid i f c e hf hc = ground arith
message_delivered env p empty (b ∷ msg) ppid sid i f c e hf hc = cc

-- User data, and acknowledgements, for a stream on which no channel stands change nothing.
pub stray_ignored :
    (env : Env) (p : Peer) (msg : Bytes) (ppid sid : ℕ)
    → find_sid sid p.channels ≡ none
    → (ppid ≢ control_ppid → handle_rtcdc_message env p msg ppid sid ≡ some p)
      × (handle_rtcdc_message env p (channel_ack ∷ msg) control_ppid sid ≡ some p)
unfolding handle_rtcdc_message handle_control handle_rtcdc_data deliver handle_rtcdc_open_ack
    acknowledge
stray_ignored env p msg ppid sid h = (λ other. ground arith, ground arith)
