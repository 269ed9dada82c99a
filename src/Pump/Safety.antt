-- ===== src/Pump/Safety.antt =====
-- What holds of a peer whose rtcdc_loop runs, whatever the order of its steps.
use librtcdc.Base.{◌≡◌, ◌∙◌, true, All, ℤ, arith}
use librtcdc.Peer.{Role}
use librtcdc.Pump.{Ssl, Running}
use librtcdc.Pump.Phases.{
  Advance, phase, IsLayered, Change, unchanged, path_found, dtls_done, sctp_done, IsAllowed, IsMove,
  Change-keeps, move-IsLayered, move-Advance,
}
use librtcdc.Pump.Moves.{
  gathering-IsMove, selected_pair-IsMove, local_candidate-IsMove, quit-IsMove, IsAllowed-more,
}
use librtcdc.Pump.Turns.{received-IsMove, sctp_work-IsMove}
use librtcdc.Pump.Threads.{data_ready-IsMove, ice_round-IsMove, startup_turn-IsMove}
use librtcdc.Pump.Steps.{
  Step, gathering, selected_pair, local_candidate, received, data_ready, sctp_work, ice_round,
  startup_round, main_loop_quit, Reach, here, next, started,
}

module _ {S : Type 0} (lib : Ssl S) where
  Step-IsMove : (c d : Running S) → IsLayered c → Step lib c d → IsMove c d
  Step-IsMove c _ l gathering = gathering-IsMove c
  Step-IsMove c _ l selected_pair = selected_pair-IsMove c
  Step-IsMove c _ l (local_candidate b text) = local_candidate-IsMove b text c
  Step-IsMove c _ l (received buf) = received-IsMove lib buf c
  Step-IsMove c d l (data_ready text ran) = data_ready-IsMove lib text c d ran
  Step-IsMove c d l (sctp_work ran) = sctp_work-IsMove lib c d ran
  Step-IsMove c _ l ice_round = ice_round-IsMove lib c l
  Step-IsMove c _ l (startup_round success b) = startup_turn-IsMove lib success b c.startup c
  Step-IsMove c _ l main_loop_quit = quit-IsMove c

  pub Reach-IsLayered : (c d : Running S) → IsLayered c → Reach lib c d → IsLayered d
  Reach-IsLayered c _ l here = l
  Reach-IsLayered c e l (next {d} r s) =
      let before = Reach-IsLayered c d l r in
      let move = Step-IsMove d e before s in move-IsLayered d e move.change move.patient before

  -- In every state that is reached from one where no layer is done before the one below it, by callbacks and
  -- turns in any order, no layer is done before the one below it; and each single step from there leaves the
  -- phase, or moves on to the one that comes next. So no phase is skipped, and none is left again.
  pub reach_progresses :
      (c d e : Running S)
      → IsLayered c
      → Reach lib c d
      → Step lib d e
      → IsLayered d × Advance (phase d) (phase e)
  reach_progresses c d e l r s =
      let before = Reach-IsLayered c d l r in
      (before, move-Advance d e (Step-IsMove d e before s).change before)

  -- The outputs so far are allowed with the flags.
  abbrev IsGuarded : Running S → Type 0
  IsGuarded c = All (IsAllowed c.negotiation_done c.dtls_handshake_done) c.outputs

  dtls_stays :
      (c d : Running S) → Change c d → c.dtls_handshake_done ≡ true → d.dtls_handshake_done ≡ true
  dtls_stays c d (unchanged a b e) h = b ∙ h
  dtls_stays c d (path_found a b e) h = b ∙ h
  dtls_stays c d (dtls_done n a b e) h = b
  dtls_stays c d (sctp_done n a b e) h = b

  Reach-IsGuarded : (c d : Running S) → IsLayered c → IsGuarded c → Reach lib c d → IsGuarded d
  Reach-IsGuarded c _ l g here = g
  Reach-IsGuarded c e l g (next {d} r s) =
      let before = Reach-IsLayered c d l r in
      let move = Step-IsMove d e before s in
      let kept = Reach-IsGuarded c d l g r in
      rw move.outputs (
        IsAllowed-more d.negotiation_done e.negotiation_done d.dtls_handshake_done
          e.dtls_handshake_done d.outputs move.more (λ h. Change-keeps d e h move.change)
          (dtls_stays d e move.change) kept move.allowed)

  pub started-IsLayered : (ssl : S) (role : Role) (port : ℤ) → IsLayered (started ssl role port)
  started-IsLayered ssl role port = record {
    dtls = λ h. absurd (ground (arith, h));
    sctp = λ h. absurd (ground (arith, h));
    ice = λ h. absurd (ground (arith, h));
  }

  -- Whatever happens to a peer after rtcdc_loop has started its threads: if a packet was sent to the other
  -- side, a pair of candidates is selected; and if usrsctp was given a packet, was told to connect or to
  -- listen, or on_connect was called, the DTLS handshake is done.
  pub outputs_guarded :
      (ssl : S) (role : Role) (port : ℤ) (d : Running S)
      → Reach lib (started ssl role port) d
      → All (IsAllowed d.negotiation_done d.dtls_handshake_done) d.outputs
  outputs_guarded ssl role port d r =
      Reach-IsGuarded (started ssl role port) d (started-IsLayered ssl role port) tt r
