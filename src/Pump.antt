-- ===== src/Pump.antt =====
-- The threads and callbacks between libnice, OpenSSL and usrsctp: src/ice.c, sctp_to_dtls and dtls_to_ice of
-- src/sctp.c, startup_thread and rtcdc_loop of src/rtcdc.c. The loops that sleep until a flag is set are
-- stages in which a turn of the thread changes nothing.
pub mod Steps
pub mod Safety
pub mod Phases
pub mod Moves
pub mod Turns
pub mod Threads
pub mod Opening
pub mod Streams
use librtcdc.Base.{
  ℕ, Bool, true, false, not, ◌||◌, ◌&&◌, Option, none, some, List, [], ◌∷◌, ◌++◌, Bytes,
  if◌then◌else◌, drop, ℤ,
}
use librtcdc.Transfer.Lines.{take}
use librtcdc.Peer.{Role, unknown, client, server}
use librtcdc.Sdp.{buffer_size}

-- SSL of OpenSSL, with its incoming_bio and outgoing_bio. Where nothing is read, [] is.
pub record Ssl (S : Type 0) : Type 0 where
  pub set_connect_state : S → S
  pub set_accept_state : S → S
  pub do_handshake : S → S
  pub is_init_finished : S → Bool
  pub write_incoming : Bytes → S → S
  pub read_outgoing : S → Bytes × S
  pub ssl_read : S → Bytes × S
  pub ssl_write : Bytes → S → S

-- What the transport hands to other libraries and to the application.
pub data Output : Type 0 where
  nice_agent_send : Bytes → Output
  usrsctp_conninput : Bytes → Output
  usrsctp_connect : ℤ → Output
  usrsctp_listen : Output
  on_candidate : Bytes → Output
  on_connect : Output

-- Where startup_thread is.
pub data Startup : Type 0 where
  wait_ice wait_dtls startup_ended : Startup

-- Where ice_thread is.
pub data IceThread : Type 0 where
  wait_gathering wait_negotiation pumping ice_ended : IceThread

-- A peer whose rtcdc_loop runs, with the fields of its transports.
pub record Running (S : Type 0) : Type 0 where
  pub role : Role
  pub exit_thread : Bool
  pub gathering_done : Bool
  pub negotiation_done : Bool
  pub ssl : S
  pub dtls_handshake_done : Bool
  pub incoming_bio : Bytes  -- of sctp
  pub outgoing_bio : Bytes
  pub remote_port : ℤ
  pub stream_cursor : ℕ
  pub sctp_handshake_done : Bool
  pub startup : Startup
  pub ice : IceThread
  pub outputs : List Output

-- A call that goes through, that sleeps on a flag, or that calls exit(1).
pub data Turn (A : Type 0) : Type 0 where
  goes : A → Turn A
  sleeps : Turn A
  exits : Turn A

-- while (!exit_thread && !flag) sleep; if (exit_thread) exit(1);
abbrev pub await_flag : {A : Type 0} → (exit_thread flag : Bool) → Turn A → Turn A
await_flag true flag rest = exits
await_flag false true rest = rest
await_flag false false rest = sleeps

module _ {S : Type 0} where
  abbrev pub output : Output → Running S → Running S
  output o c = record c { outputs = c.outputs ++ o ∷ [] }

  unfoldable pub candidate_gathering_done_cb : Running S → Running S
  candidate_gathering_done_cb c = record c { gathering_done = true }

  unfoldable pub new_selected_pair_cb : Running S → Running S
  new_selected_pair_cb c = record c { negotiation_done = true }

  -- The flag says whether the peer has a callback.
  unfoldable pub new_local_candidate_cb : Bool → Bytes → Running S → Running S
  new_local_candidate_cb false candidate c = c
  new_local_candidate_cb true candidate c = output (on_candidate candidate) c

  -- BIO_read of what is pending, as usrsctp_conninput gets it.
  abbrev pub conninput : Bytes → Running S → Running S
  conninput [] c = c
  conninput (b ∷ pending) c =
      output (usrsctp_conninput (take buffer_size (b ∷ pending)))
        (record c { incoming_bio = drop buffer_size (b ∷ pending) })

  -- if (nbytes > 0) ...
  abbrev pub sctp_input : Bytes → Running S → Running S
  sctp_input [] c = c
  sctp_input (b ∷ text) c = conninput (c.incoming_bio ++ (b ∷ text)) c

  abbrev pub send_out : Bytes → Running S → Running S
  send_out [] c = c
  send_out (b ∷ text) c = output (nice_agent_send (b ∷ text)) c

module _ {S : Type 0} (lib : Ssl S) where
  unfoldable pub data_received_cb : Bytes → Running S → Running S
  data_received_cb buf c =
      let ssl = lib.write_incoming buf c.ssl in
      let done = c.dtls_handshake_done || lib.is_init_finished ssl in
      let read = lib.ssl_read ssl in
      if not c.negotiation_done
      then c
      else if not done
      then record c { ssl = lib.do_handshake ssl }
      else sctp_input read.0 (record c { ssl = read.1; dtls_handshake_done = true })

  -- if (!dtls->handshake_done) ..., at the end of dtls_to_ice and of a round of ice_thread
  unfoldable pub go_on_handshake : Running S → Running S
  go_on_handshake c =
      let ssl = lib.do_handshake c.ssl in
      if c.dtls_handshake_done
      then c
      else record c { ssl = ssl; dtls_handshake_done = lib.is_init_finished ssl }

  -- if (BIO_ctrl_pending(dtls->outgoing_bio) > 0) ...
  unfoldable pub flush_dtls : Running S → Running S
  flush_dtls c = let read = lib.read_outgoing c.ssl in send_out read.0 (record c { ssl = read.1 })

  unfoldable pub dtls_to_ice : Running S → Turn (Running S)
  dtls_to_ice c =
      await_flag c.exit_thread c.gathering_done
        (await_flag c.exit_thread c.negotiation_done (goes (go_on_handshake (flush_dtls c))))

  abbrev pub write_ssl : Bytes → Running S → Running S
  write_ssl [] c = c
  write_ssl (b ∷ text) c = record c { ssl = lib.ssl_write (b ∷ text) c.ssl }

  unfoldable pub sctp_to_dtls : Running S → Turn (Running S)
  sctp_to_dtls c = await_flag c.exit_thread c.negotiation_done (
      await_flag c.exit_thread c.dtls_handshake_done (
        goes (
          write_ssl (take buffer_size c.outgoing_bio)
            (record c { outgoing_bio = drop buffer_size c.outgoing_bio }))))

  unfoldable pub dtls_to_sctp : Running S → Turn (Running S)
  dtls_to_sctp c =
      await_flag c.exit_thread c.negotiation_done
        (await_flag c.exit_thread c.dtls_handshake_done (goes (conninput c.incoming_bio c)))

  abbrev pub and_then : Turn (Running S) → (Running S → Turn (Running S)) → Turn (Running S)
  and_then (goes c) f = f c
  and_then sleeps f = sleeps
  and_then exits f = exits

  -- usrsctp has a packet.
  unfoldable pub sctp_data_ready_cb : Bytes → Running S → Turn (Running S)
  sctp_data_ready_cb text c =
      and_then (sctp_to_dtls (record c { outgoing_bio = c.outgoing_bio ++ text })) dtls_to_ice

  -- A turn of ice_thread, in its stage.
  unfoldable pub ice_turn : IceThread → Running S → Running S
  ice_turn wait_gathering c =
      if c.exit_thread
      then record c { ice = ice_ended }
      else if c.gathering_done
      then record c { ice = wait_negotiation }
      else c
  ice_turn wait_negotiation c =
      if c.exit_thread
      then record c { ice = ice_ended }
      else if c.negotiation_done
      then record c { ice = pumping }
      else c
  ice_turn pumping c =
      if c.exit_thread then record c { ice = ice_ended } else go_on_handshake (flush_dtls c)
  ice_turn ice_ended c = c

  -- SSL_set_connect_state or SSL_set_accept_state, and SSL_do_handshake
  abbrev pub begin_handshake : Role → S → S
  begin_handshake client ssl = lib.do_handshake (lib.set_connect_state ssl)
  begin_handshake server ssl = lib.do_handshake (lib.set_accept_state ssl)
  begin_handshake unknown ssl = lib.do_handshake (lib.set_accept_state ssl)

module _ {S : Type 0} where
  -- The end of startup_thread, by the success of usrsctp_connect or usrsctp_accept.
  abbrev pub opened : Bool → (has_callback : Bool) → Running S → Running S
  opened false has_callback c = c
  opened true false c = record c { sctp_handshake_done = true }
  opened true true c = output on_connect (record c { sctp_handshake_done = true })

  unfoldable pub open_sctp : Role → (success has_callback : Bool) → Running S → Running S
  open_sctp client success has_callback c =
      opened success has_callback
        (output (usrsctp_connect c.remote_port) (record c { stream_cursor = 0 }))
  open_sctp server success has_callback c =
      opened success has_callback (output usrsctp_listen (record c { stream_cursor = 1 }))
  open_sctp unknown success has_callback c =
      opened success has_callback (output usrsctp_listen (record c { stream_cursor = 1 }))

module _ {S : Type 0} (lib : Ssl S) where
  -- A turn of startup_thread, in its stage. usrsctp_connect and usrsctp_accept block: the turn that calls them
  -- is the one in which they return, and until then the thread takes no turn, though what it has told
  -- usrsctp and the stream id it has set are there from the call on.
  unfoldable pub startup_turn : (success has_callback : Bool) → Startup → Running S → Running S
  startup_turn success has_callback wait_ice c =
      if c.exit_thread
      then record c { startup = startup_ended }
      else if c.negotiation_done
      then record c { ssl = begin_handshake lib c.role c.ssl; startup = wait_dtls }
      else c
  startup_turn success has_callback wait_dtls c =
      if c.exit_thread
      then record c { startup = startup_ended }
      else if c.dtls_handshake_done
      then open_sctp c.role success has_callback (record c { startup = startup_ended })
      else c
  startup_turn success has_callback startup_ended c = c
