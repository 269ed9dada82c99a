-- ===== src/Pump/Threads.antt =====
-- The moves of the threads, and of usrsctp's callback.
use librtcdc.Base.{
  ℕ, ◌≡◌, refl, sym, Bool, true, false, if◌then◌else◌, inl, inr, Bytes, [], ◌∷◌, ◌++◌, append-nil,
  append_assoc, arith,
}
use librtcdc.Peer.{Role, client, server, unknown}
use librtcdc.Pump.{
  Ssl, Output, usrsctp_connect, usrsctp_listen, on_connect, Running, Turn, goes, sleeps, exits,
  and_then, IceThread, wait_gathering, wait_negotiation, pumping, ice_ended, wait_ice, wait_dtls,
  startup_ended, Startup, sctp_data_ready_cb, sctp_to_dtls, dtls_to_ice, go_on_handshake,
  flush_dtls, ice_turn, startup_turn, open_sctp, opened, begin_handshake,
}
use librtcdc.Pump.Phases.{IsLayered, sctp_done, IsMove, IsAllowed}
use librtcdc.Pump.Moves.{quiet-IsMove, IsOnPath, IsOnPath-then, on_path-IsMove}
use librtcdc.Pump.Turns.{go_on-IsOnPath, flush-IsOnPath, sctp_to_dtls-goes, dtls_to_ice-goes}

if_cases :
    {A : Type 0} (P : A → Type 0) (x y z : A) (e f : Bool)
    → P x
    → (f ≡ true → P y)
    → P z
    → P (if e then x else if f then y else z)
if_cases P x y z true f a b c = a
if_cases P x y z false true a b c = b refl
if_cases P x y z false false a b c = c

module _ {S : Type 0} (lib : Ssl S) where
  and_then_goes :
      (r : Turn (Running S)) (f : Running S → Turn (Running S)) (d : Running S)
      → and_then lib r f ≡ goes d
      → (e : Running S) × (r ≡ goes e) × (f e ≡ goes d)
  and_then_goes (goes e) f d h = (e, refl, h)
  and_then_goes sleeps f d h = absurd (ground (arith, h))
  and_then_goes exits f d h = absurd (ground (arith, h))

  pub data_ready-IsMove :
      (text : Bytes) (c d : Running S) → sctp_data_ready_cb lib text c ≡ goes d → IsMove c d
  unfolding sctp_data_ready_cb
  data_ready-IsMove text c d h =
      let b : Running S = record c { outgoing_bio = c.outgoing_bio ++ text } in
      let (e, ran, more) = and_then_goes (sctp_to_dtls lib b) (dtls_to_ice lib) d h in
      let (n, first) = sctp_to_dtls-goes lib b e ran in
      let filled : IsOnPath c b = record {
        path = n;
        dtls = inl refl;
        sctp = refl;
        ice = refl;
        more = [];
        outputs = sym (append-nil c.outputs);
        allowed = tt;
      } in
      on_path-IsMove c d n
        (IsOnPath-then c b d filled (IsOnPath-then b e d first (dtls_to_ice-goes lib e d more)))

  same-IsMove : (c : Running S) → IsMove c c
  same-IsMove c = quiet-IsMove c c [] refl refl refl (λ h. inl h) (sym (append-nil c.outputs)) tt

  ice_ended-IsMove : (c : Running S) → IsMove c (record c { ice = ice_ended })
  ice_ended-IsMove c =
      quiet-IsMove c (record c { ice = ice_ended }) [] refl refl refl
        (λ h. absurd (ground (arith, h))) (sym (append-nil c.outputs)) tt

  ice_turn-IsMove :
      (i : IceThread) (c : Running S) → c.ice ≡ i → IsLayered c → IsMove c (ice_turn lib i c)
  unfolding ice_turn
  ice_turn-IsMove wait_gathering c at l =
      if_cases (λ d. IsMove c d) (record c { ice = ice_ended })
        (record c { ice = wait_negotiation }) c c.exit_thread c.gathering_done (ice_ended-IsMove c)
        (λ g.
          quiet-IsMove c (record c { ice = wait_negotiation }) [] refl refl refl
            (λ h. absurd (ground (arith, h))) (sym (append-nil c.outputs)) tt)
        (same-IsMove c)
  ice_turn-IsMove wait_negotiation c at l =
      if_cases (λ d. IsMove c d) (record c { ice = ice_ended }) (record c { ice = pumping }) c
        c.exit_thread c.negotiation_done (ice_ended-IsMove c)
        (λ n.
          quiet-IsMove c (record c { ice = pumping }) [] refl refl refl (λ h. inr n)
            (sym (append-nil c.outputs)) tt)
        (same-IsMove c)
  ice_turn-IsMove pumping c at l =
      let n = l.ice at in
      let flushed = flush-IsOnPath lib c n in
      let d = flush_dtls lib c in
      let round : IsMove c (go_on_handshake lib d) =
        on_path-IsMove c (go_on_handshake lib d) n
          (IsOnPath-then c d (go_on_handshake lib d) flushed (go_on-IsOnPath lib d flushed.path)) in
      if_cases (λ x. IsMove c x) (record c { ice = ice_ended }) (go_on_handshake lib d)
        (go_on_handshake lib d) c.exit_thread true (ice_ended-IsMove c) (λ h. round) round
  ice_turn-IsMove ice_ended c at l = same-IsMove c

  pub ice_round-IsMove : (c : Running S) → IsLayered c → IsMove c (ice_turn lib c.ice c)
  ice_round-IsMove c l = ice_turn-IsMove c.ice c refl l

  opened-IsMove :
      (success has_callback : Bool) (c : Running S) (cursor : ℕ) (o : Output)
      → c.dtls_handshake_done ≡ true
      → IsAllowed c.negotiation_done c.dtls_handshake_done o
      → IsMove c (
          opened success has_callback (record c {
            startup = startup_ended;
            stream_cursor = cursor;
            outputs = c.outputs ++ o ∷ [];
          }))
  opened-IsMove false has_callback c cursor o done ok =
      quiet-IsMove c _ (o ∷ []) refl refl refl (λ h. inl h) refl (ok, tt)
  opened-IsMove true false c cursor o done ok = record {
    change = sctp_done done refl done refl;
    patient = λ h. inl h;
    more = o ∷ [];
    outputs = refl;
    allowed = (ok, tt);
  }
  opened-IsMove true true c cursor o done ok = record {
    change = sctp_done done refl done refl;
    patient = λ h. inl h;
    more = o ∷ on_connect ∷ [];
    outputs = append_assoc c.outputs (o ∷ []) (on_connect ∷ []);
    allowed = (ok, (done, tt));
  }

  open_sctp-IsMove :
      (role : Role) (success has_callback : Bool) (c : Running S)
      → c.dtls_handshake_done ≡ true
      → IsMove c (open_sctp role success has_callback (record c { startup = startup_ended }))
  unfolding open_sctp
  open_sctp-IsMove client success has_callback c done =
      opened-IsMove success has_callback c 0 (usrsctp_connect c.remote_port) done done
  open_sctp-IsMove server success has_callback c done =
      opened-IsMove success has_callback c 1 usrsctp_listen done done
  open_sctp-IsMove unknown success has_callback c done =
      opened-IsMove success has_callback c 1 usrsctp_listen done done

  startup_ended-IsMove : (c : Running S) → IsMove c (record c { startup = startup_ended })
  startup_ended-IsMove c =
      quiet-IsMove c (record c { startup = startup_ended }) [] refl refl refl (λ h. inl h)
        (sym (append-nil c.outputs)) tt

  pub startup_turn-IsMove :
      (success has_callback : Bool) (t : Startup) (c : Running S)
      → IsMove c (startup_turn lib success has_callback t c)
  unfolding startup_turn
  startup_turn-IsMove success has_callback wait_ice c =
      let begun : Running S = record c {
        ssl = begin_handshake lib c.role c.ssl;
        startup = wait_dtls;
      } in
      if_cases (λ d. IsMove c d) (record c { startup = startup_ended }) begun c c.exit_thread
        c.negotiation_done (startup_ended-IsMove c)
        (λ n. quiet-IsMove c begun [] refl refl refl (λ h. inl h) (sym (append-nil c.outputs)) tt)
        (same-IsMove c)
  startup_turn-IsMove success has_callback wait_dtls c =
      if_cases (λ d. IsMove c d) (record c { startup = startup_ended })
        (open_sctp c.role success has_callback (record c { startup = startup_ended })) c
        c.exit_thread c.dtls_handshake_done (startup_ended-IsMove c)
        (λ done. open_sctp-IsMove c.role success has_callback c done) (same-IsMove c)
  startup_turn-IsMove success has_callback startup_ended c = same-IsMove c
