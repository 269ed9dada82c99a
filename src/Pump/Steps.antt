-- ===== src/Pump/Steps.antt =====
-- The steps of a peer whose rtcdc_loop runs, in any order, and the states that they reach.
use librtcdc.Base.{◌≡◌, Bool, true, false, [], Bytes, ℤ}
use librtcdc.Peer.{Role}
use librtcdc.Pump.{
  Ssl, Running, goes, wait_ice, wait_gathering, candidate_gathering_done_cb, new_selected_pair_cb,
  new_local_candidate_cb, data_received_cb, sctp_data_ready_cb, dtls_to_sctp, ice_turn,
  startup_turn,
}

module _ {S : Type 0} (lib : Ssl S) where
  -- A callback of libnice; one of usrsctp that goes through; a turn of a thread; the end of the main
  -- loop in rtcdc_loop; and what OpenSSL does to the SSL on its own account.
  pub data Step (c : Running S) : Running S → Type 0 where
    gathering : Step c (candidate_gathering_done_cb c)
    selected_pair : Step c (new_selected_pair_cb c)
    local_candidate :
        (has_callback : Bool) (text : Bytes) → Step c (new_local_candidate_cb has_callback text c)
    received : (buf : Bytes) → Step c (data_received_cb lib buf c)
    data_ready : {d : Running S} (text : Bytes) → sctp_data_ready_cb lib text c ≡ goes d → Step c d
    sctp_work : {d : Running S} → dtls_to_sctp lib c ≡ goes d → Step c d
    ice_round : Step c (ice_turn lib c.ice c)
    startup_round :
        (success has_callback : Bool) → Step c (startup_turn lib success has_callback c.startup c)
    main_loop_quit : Step c (record c { exit_thread = true })

  pub data Reach (c : Running S) : Running S → Type 0 where
    here : Reach c c
    next : {d e : Running S} → Reach c d → Step d e → Reach c e

-- When rtcdc_loop starts the threads, after both sides have been heard.
abbrev pub started : {S : Type 0} → S → Role → ℤ → Running S
started ssl role port = record {
  role = role;
  exit_thread = false;
  gathering_done = false;
  negotiation_done = false;
  ssl = ssl;
  dtls_handshake_done = false;
  incoming_bio = [];
  outgoing_bio = [];
  remote_port = port;
  stream_cursor = 0;
  sctp_handshake_done = false;
  startup = wait_ice;
  ice = wait_gathering;
  outputs = [];
}
