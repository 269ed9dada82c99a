-- ===== src/Channel/Sending.antt =====
-- What rtcdc_create_data_channel and rtcdc_send_message hand to the network.
use librtcdc.Base.{
  ℕ, ◌+◌, ◌%◌, ◌<◌, ◌≡◌, refl, true, Option, none, some, [], ◌∷◌, ◌++◌, List, zero, suc, Bytes,
  arith, length, set-set, set,
}
use librtcdc.Peer.{
  connected, Channel, Event, Sctp, Peer, Env, max_channel_num, first_free, find_sid, notify_if,
  notify, send_sctp_message,
}
use librtcdc.Dcep.{
  sizeof_channel, install, handle_control, acknowledge, handle_rtcdc_message, handle_rtcdc_open_ack,
}
use librtcdc.Dcep.Wire.{write_open, sizeof_open, control_ppid, channel_ack}
use librtcdc.Channel.{create_in, finish, Request, new_channel, open_request, create_data_channel}

-- Once SCTP is connected and where allocation and sending succeed, a new channel in state CONNECTING
-- stands in the first free slot, its stream id is the cursor, which moves on by two, and its OPEN
-- message, with the texts of its label and protocol, is the last thing handed to the network.
pub create_sends :
    (env : Env) (p : Peer) (s : Sctp) (r : Request) (label protocol : Bytes)
    → p.transport ≡ some s
    → s.deferred_messages ≡ true
    → s.handshake_done ≡ true
    → first_free p.channels < max_channel_num
    → env.calloc sizeof_channel ≡ true
    → env.calloc (sizeof_open + length label + length protocol) ≡ true
    → r.label ≡ some label
    → r.protocol ≡ some protocol
    → env.sendv
        (s.stream_cursor % 65536)
        control_ppid
        (some (write_open (open_request label protocol)))
      ≡ true
    → create_data_channel env p r
      ≡ some (
        record p {
          transport = some (record s { stream_cursor = s.stream_cursor + 2 });
          channels = set p.channels (first_free p.channels) (some (new_channel r s.stream_cursor));
          events =
              p.events
              ++ Event.sendv
                  (s.stream_cursor % 65536)
                  control_ppid
                  (some (write_open (open_request label protocol)))
                ∷ [];
        },
        some (new_channel r s.stream_cursor),
      )
unfolding create_data_channel create_in finish send_sctp_message
create_sends env p s r label protocol ht hd hh hf c1 c2 el ep sent = ground arith

pub find_sid-set :
    (sid : ℕ) (cs : List (Option Channel)) (i : ℕ) (ch : Channel)
    → find_sid sid cs ≡ none
    → ch.sid ≡ sid
    → i < length cs
    → find_sid sid (set cs i (some ch)) ≡ some (i, ch)
unfolding find_sid
find_sid-set sid [] i ch h e l = absurd (omega arith)
find_sid-set sid (none ∷ cs) zero ch h e l = ground arith
find_sid-set sid (some c ∷ cs) zero ch h e l = ground arith
find_sid-set sid (none ∷ cs) (suc i) ch h e l = ground (arith, find_sid-set sid cs i ch)
find_sid-set sid (some c ∷ cs) (suc i) ch h e l = ground (arith, find_sid-set sid cs i ch)

-- A channel that the application has opened in slot `i`, on a stream that no other channel of the peer
-- uses, is the one that the acknowledgement connects: its callback is called, and nothing else changes.
pub ack_connects :
    (env : Env) (p : Peer) (r : Request) (cursor i f : ℕ)
    → find_sid (cursor % 65536) p.channels ≡ none
    → i < length p.channels
    → r.on_open ≡ some f
    → handle_rtcdc_message env
        (install i (some (new_channel r cursor)) p)
        (channel_ack ∷ [])
        control_ppid
        (cursor % 65536)
      ≡ some (
          notify env
            (Event.on_open f i r.user_data)
            (install i (some (record (new_channel r cursor) { state = connected })) p))
unfolding handle_rtcdc_message handle_control handle_rtcdc_open_ack acknowledge notify_if
    new_channel
ack_connects env p r cursor i f free l ho = ground (
  arith,
  find_sid-set (cursor % 65536) p.channels i (new_channel r cursor) free refl l,
  set-set p.channels i (some (new_channel r cursor))
      (some (record (new_channel r cursor) { state = connected })) l,
)
