-- ===== src/Tests/Opening.antt =====
-- The opening of a channel, end to end.
use librtcdc.Base.{◌+◌, ◌<◌, ◌≡◌, ◌↔◌, refl, none, some, [], ◌∷◌, ◌++◌, codes, arith, length}
use librtcdc.Peer.{Peer, Event, first_free}
use librtcdc.Dcep.{
  handle_rtcdc_message, handle_control, handle_rtcdc_open_request, allocate_new_data_channel, dup,
}
use librtcdc.Dcep.Wire.{
  OpenMessage, write_open, read_open, strndup, control_ppid, channel_open, channel_ack,
}
use librtcdc.Dcep.RoundTrip.{accepted, with_channel_open, open_request_answered}
use librtcdc.Dcep.Faults.{open_faults_iff}
use librtcdc.Channel.{open_request}
use librtcdc.Tests.Fixtures.{quiet, connected_sctp, answerer, upload_label}

-- The answerer with the channel, when its callback has returned.
abbrev called_back : Peer
called_back = with_channel_open answerer (accepted upload_label [] 0) 7

open_request_answered_example :
    handle_rtcdc_message quiet answerer (write_open (open_request upload_label [])) control_ppid 0
    ≡ some (record called_back {
      events = called_back.events ++ Event.sendv 0 control_ppid (some (channel_ack ∷ [])) ∷ [];
    })
unfolding first_free
open_request_answered_example =
    open_request_answered quiet answerer called_back (connected_sctp 1) (connected_sctp 1) 7
      upload_label [] 0 refl refl (omega arith) refl (ground arith) tt (omega arith) (omega arith)
      refl refl refl refl refl

-- The header announces five bytes of label, and two follow.
abbrev cut_short : OpenMessage
cut_short = record {
  message_type = channel_open;
  channel_type = 0;
  priority = 0;
  reliability_param = 0;
  label_length = 5;
  protocol_length = 0;
  label_and_protocol = codes "ab";
}

open_faults_iff_example :
    (handle_rtcdc_message quiet answerer (write_open cut_short) control_ppid 0 ≡ none)
    ↔ (length cut_short.label_and_protocol < 5 + 0)
unfolding first_free
open_faults_iff_example =
    open_faults_iff quiet answerer (connected_sctp 1) cut_short 0 refl (omega arith) refl
      (omega arith) refl (ground arith)

cut_short_faults : handle_rtcdc_message quiet answerer (write_open cut_short) control_ppid 0 ≡ none
unfolding handle_rtcdc_message handle_control handle_rtcdc_open_request first_free read_open
    write_open allocate_new_data_channel dup strndup
cut_short_faults = refl
