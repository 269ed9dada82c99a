-- ===== src/Tests/Transports.antt =====
-- A transport that is made, and one whose socket is not.
use librtcdc.Base.{◌≡◌, refl, true, false, [], ◌∷◌, pos, inc, if◌then◌else◌}
use librtcdc.Peer.{client, unknown, success, failure}
use librtcdc.Lifecycle.{
  Globals, Outcomes, Link, create_rtcdc_transport, with_context, with_sctp, create_dtls_transport,
  create_ice_transport, create_sctp_transport, open_socket, usrsctp_init, usrsctp_register_address,
  usrsctp_finish, release_context,
}
use librtcdc.Lifecycle.Counts.{IsCounted, fails_in_sctp}
use librtcdc.Lifecycle.Outcome.{create_failure}

abbrev pub all_well : Outcomes
all_well = record {
  alloc_transport = true;
  create_context = true;
  alloc_dtls = true;
  ssl_new = true;
  dtls_incoming_bio = true;
  dtls_outgoing_bio = true;
  alloc_sctp = true;
  socket = true;
  sctp_incoming_bio = true;
  sctp_outgoing_bio = true;
  alloc_ice = true;
  main_loop = true;
  agent = true;
  add_stream = true;
  gather_candidates = true;
  finish = λ n. true;
}

abbrev no_socket : Outcomes
no_socket = record all_well { socket = false }

abbrev pub fresh : Globals
fresh = record { dtls_context = false; context_ref = pos 0; sctp_ref = pos 0; calls = [] }

abbrev pub alone : Link
alone = record { transport = false; role = unknown; initialized = false }

abbrev pub linked : Link
linked = record { transport = true; role = client; initialized = true }

abbrev pub in_use : Globals
in_use = record {
  dtls_context = true;
  context_ref = pos 1;
  sctp_ref = pos 1;
  calls = usrsctp_init ∷ usrsctp_register_address ∷ [];
}

abbrev left_over : Globals
left_over = record {
  dtls_context = false;
  context_ref = pos 0;
  sctp_ref = pos 1;
  calls = usrsctp_init ∷ usrsctp_register_address ∷ usrsctp_finish ∷ [];
}

pub fresh-IsCounted : IsCounted 0 fresh
fresh-IsCounted = record { count = refl; context = refl }

pub all_created : create_rtcdc_transport all_well alone client fresh ≡ (success, (linked, in_use))
unfolding create_rtcdc_transport with_context with_sctp create_dtls_transport create_ice_transport
    create_sctp_transport open_socket
all_created = refl

socket_missing :
    create_rtcdc_transport no_socket alone client fresh
    ≡ (failure, (record alone { role = client }, left_over))
unfolding create_rtcdc_transport with_context with_sctp create_dtls_transport create_sctp_transport
    open_socket release_context
socket_missing = refl

create_failure_example :
    (false ≡ false)
    × (left_over.dtls_context ≡ fresh.dtls_context)
    × (left_over.context_ref ≡ fresh.context_ref)
    × (left_over.sctp_ref
        ≡ (if fails_in_sctp no_socket fresh then inc fresh.sctp_ref else fresh.sctp_ref))
create_failure_example =
    create_failure 0 no_socket alone (record alone { role = client }) client fresh left_over
      fresh-IsCounted refl socket_missing
