-- ===== src/Tests/Pumping.antt =====
-- A handshake that takes one packet.
use librtcdc.Base.{ℕ, suc, All, codes, ltb, pos}
use librtcdc.Peer.{client}
use librtcdc.Pump.{Ssl, Running, new_selected_pair_cb, data_received_cb}
use librtcdc.Pump.Phases.{Advance, phase, IsLayered, IsAllowed}
use librtcdc.Pump.Steps.{selected_pair, received, Reach, here, next, started}
use librtcdc.Pump.Safety.{reach_progresses, started-IsLayered, outputs_guarded}

-- It counts the packets, and passes a text on when it has one.
abbrev pub counter : Ssl ℕ
counter = record {
  set_connect_state = λ s. s;
  set_accept_state = λ s. s;
  do_handshake = λ s. s;
  is_init_finished = λ s. ltb 0 s;
  write_incoming = λ text s. suc s;
  read_outgoing = λ s. (codes "out", s);
  ssl_read = λ s. (codes "in", s);
  ssl_write = λ text s. s;
}

abbrev start : Running ℕ
start = started 0 client (pos 10005)

abbrev secured_by : Running ℕ
secured_by = data_received_cb counter (codes "packet") (new_selected_pair_cb start)

abbrev one_run : Reach counter start secured_by
one_run = next (next here selected_pair) (received (codes "packet"))

abbrev negotiated_by : Running ℕ
negotiated_by = new_selected_pair_cb start

reach_progresses_example :
    IsLayered negotiated_by × Advance (phase negotiated_by) (phase secured_by)
reach_progresses_example =
    reach_progresses counter start negotiated_by secured_by
      (started-IsLayered counter 0 client (pos 10005)) (next here selected_pair)
      (received (codes "packet"))

outputs_guarded_example :
    All (IsAllowed secured_by.negotiation_done secured_by.dtls_handshake_done) secured_by.outputs
outputs_guarded_example = outputs_guarded counter 0 client (pos 10005) secured_by one_run
