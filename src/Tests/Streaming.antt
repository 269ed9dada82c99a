-- ===== src/Tests/Streaming.antt =====
-- Two peers that connect and open a channel each.
use librtcdc.Base.{ℕ, ◌≡◌, ◌≢◌, refl, true, false, some, set, arith, pos, decimal}
use librtcdc.Peer.{Peer, client, server, first_free, send_sctp_message}
use librtcdc.Channel.{new_channel, create_data_channel, create_in, finish}
use librtcdc.Channel.Reach.{here}
use librtcdc.Callbacks.{serving}
use librtcdc.Callbacks.Keeping.{serving-IsOrderly}
use librtcdc.Sdp.{random_integer, random_number_string, ice_lines}
use librtcdc.Sdp.Agreement.{connected, port_of, exchange_roles}
use librtcdc.Pump.{Running, startup_turn, open_sctp}
use librtcdc.Pump.Steps.{started}
use librtcdc.Pump.Streams.{IsOpened, exchange_sids, sid_given_again}
use librtcdc.Tests.Fixtures.{
  quiet, connected_sctp, offerer, answerer, upload_request, offerer-IsTable, answerer-IsTable,
}
use librtcdc.Tests.Transports.{in_use}
use librtcdc.Tests.Describing.{glib, glib-IsGlib}
use librtcdc.Tests.Agreeing.{
  agent, ours, theirs, party, ours-IsFresh, theirs-IsFresh, ours-IsPlain, theirs-IsPlain,
}
use librtcdc.Tests.Pumping.{counter}
use librtcdc.Tests.Sessions.{first_upload, answerer_upload}

abbrev our_threads : Running ℕ
our_threads = record (started 1 client (pos 20005)) {
  negotiation_done = true;
  dtls_handshake_done = true;
}

abbrev their_threads : Running ℕ
their_threads = record (started 1 server (pos 10005)) {
  negotiation_done = true;
  dtls_handshake_done = true;
}

ours-IsOpened :
    IsOpened counter (connected ours party in_use client (pos (port_of theirs))) our_threads offerer
unfolding startup_turn open_sctp
ours-IsOpened = record {
  role = refl;
  waits = refl;
  goes_on = refl;
  path = refl;
  done = refl;
  table = offerer-IsTable;
  begins = λ s e. ground arith;
}

theirs-IsOpened :
    IsOpened counter
      (connected theirs party in_use server (pos (port_of ours)))
      their_threads
      answerer
unfolding startup_turn open_sctp
theirs-IsOpened = record {
  role = refl;
  waits = refl;
  goes_on = refl;
  path = refl;
  done = refl;
  table = answerer-IsTable;
  begins = λ s e. ground arith;
}

exchange_sids_example : (new_channel upload_request 0).sid ≢ (new_channel upload_request 1).sid
unfolding random_integer random_number_string ice_lines decimal
exchange_sids_example =
    exchange_sids glib glib-IsGlib counter agent agent 0 0 ours theirs party party in_use in_use
      (pos 1) (pos 1) (connected ours party in_use client (pos (port_of theirs)))
      (connected theirs party in_use server (pos (port_of ours))) our_threads their_threads
      (serving quiet) (serving quiet) offerer offerer answerer answerer _ _ upload_request
      upload_request (new_channel upload_request 0) (new_channel upload_request 1) ours-IsFresh
      theirs-IsFresh ours-IsPlain theirs-IsPlain (omega arith) (omega arith)
      (exchange_roles glib glib-IsGlib agent agent 0 0 ours theirs party party in_use in_use
        ours-IsFresh theirs-IsFresh ours-IsPlain theirs-IsPlain (omega arith) (omega arith))
      ours-IsOpened theirs-IsOpened (serving-IsOrderly quiet) (serving-IsOrderly quiet) here here
      first_upload answerer_upload

-- The client opens a channel before the association, and one when its threads have opened it.
abbrev hurried : Peer
hurried = record offerer { transport = some (record (connected_sctp 0) { handshake_done = false }) }

hurried_upload :
    create_data_channel quiet hurried upload_request
    ≡ some (
      record hurried {
        transport = some (record (connected_sctp 2) { handshake_done = false });
        channels = set hurried.channels 0 (some (new_channel upload_request 0));
      },
      some (new_channel upload_request 0),
    )
unfolding create_data_channel first_free create_in finish send_sctp_message new_channel
hurried_upload = refl

sid_given_again_example : (new_channel upload_request 0).sid ≡ (new_channel upload_request 0).sid
unfolding create_data_channel open_sctp
sid_given_again_example =
    sid_given_again our_threads true quiet (serving quiet) hurried _ offerer _ upload_request
      upload_request (new_channel upload_request 0) (new_channel upload_request 0)
      (record (connected_sctp 0) { handshake_done = false }) (connected_sctp 0) refl refl
      hurried_upload first_upload
