-- ===== src/Pump/Turns.antt =====
-- The moves of the callbacks and threads that use OpenSSL.
use mathlib.Core.Path.{subst}
use librtcdc.Base.{
  ◌≡◌, refl, sym, ◌∙◌, Bool, true, false, not, ◌||◌, if◌then◌else◌, Bool-cases, inl, inr, Bytes, [],
  ◌∷◌, append-nil, arith, drop,
}
use librtcdc.Transfer.Lines.{take}
use librtcdc.Sdp.{buffer_size}
use librtcdc.Pump.{
  Ssl, Running, Turn, goes, await_flag, conninput, sctp_input, send_out, write_ssl,
  data_received_cb, dtls_to_sctp, sctp_to_dtls, dtls_to_ice, go_on_handshake, flush_dtls,
}
use librtcdc.Pump.Phases.{IsMove}
use librtcdc.Pump.Moves.{
  quiet-IsMove, IsOnPath, IsOnPath-then, on_path-IsMove, ssl-IsOnPath, send_out-IsOnPath,
  conninput-IsOnPath, sctp_input-IsOnPath,
}

await_goes :
    {A : Type 0} (x f : Bool) (r : Turn A) (a : A)
    → await_flag x f r ≡ goes a
    → (f ≡ true) × (r ≡ goes a)
await_goes true f r a h = absurd (ground (arith, h))
await_goes false true r a h = (refl, h)
await_goes false false r a h = absurd (ground (arith, h))

third :
    {A : Type 0} (x y z : A) (n d : Bool)
    → n ≡ true
    → d ≡ true
    → (if not n then x else if not d then y else z) ≡ z
third x y z n d h k = rw (h, k) refl

second :
    {A : Type 0} (x y z : A) (n d : Bool)
    → n ≡ true
    → d ≡ false
    → (if not n then x else if not d then y else z) ≡ y
second x y z n d h k = rw (h, k) refl

module _ {S : Type 0} (lib : Ssl S) where
  handshake-IsOnPath :
      (ssl : S) (done : Bool) (c : Running S)
      → c.negotiation_done ≡ true
      → c.dtls_handshake_done ≡ false
      → IsOnPath c (record c { ssl = ssl; dtls_handshake_done = done })
  handshake-IsOnPath ssl done c n still = record {
    path = n;
    dtls = elim (Bool-cases done) [
      | inl yes_done ↦ inr yes_done
      | inr not_done ↦ inl (not_done ∙ sym still)
    ];
    sctp = refl;
    ice = refl;
    more = [];
    outputs = sym (append-nil c.outputs);
    allowed = tt;
  }

  pub go_on-IsOnPath :
      (c : Running S) → c.negotiation_done ≡ true → IsOnPath c (go_on_handshake lib c)
  unfolding go_on_handshake
  go_on-IsOnPath c n = elim (Bool-cases c.dtls_handshake_done) [
    | inl done ↦ simp done (ssl-IsOnPath c.ssl c n)
    | inr still ↦
        let ssl = lib.do_handshake c.ssl in
        simp still (handshake-IsOnPath ssl (lib.is_init_finished ssl) c n still)
  ]

  pub flush-IsOnPath : (c : Running S) → c.negotiation_done ≡ true → IsOnPath c (flush_dtls lib c)
  unfolding flush_dtls
  flush-IsOnPath c n =
      let read = lib.read_outgoing c.ssl in
      let d : Running S = record c { ssl = read.1 } in
      IsOnPath-then c d (send_out read.0 d) (ssl-IsOnPath read.1 c n) (send_out-IsOnPath read.0 d n)

  write_ssl-IsOnPath :
      (text : Bytes) (c : Running S) → c.negotiation_done ≡ true → IsOnPath c (write_ssl lib text c)
  write_ssl-IsOnPath [] c n = ssl-IsOnPath c.ssl c n
  write_ssl-IsOnPath (b ∷ text) c n = ssl-IsOnPath (lib.ssl_write (b ∷ text) c.ssl) c n

  pub received-IsMove : (buf : Bytes) (c : Running S) → IsMove c (data_received_cb lib buf c)
  unfolding data_received_cb
  received-IsMove buf c =
      let ssl = lib.write_incoming buf c.ssl in
      let read = lib.ssl_read ssl in
      elim (Bool-cases c.negotiation_done) [
        | inr none_yet ↦
            simp none_yet
              (quiet-IsMove c c [] refl refl refl (λ h. inl h) (sym (append-nil c.outputs)) tt)
        | inl n ↦ elim (Bool-cases (c.dtls_handshake_done || lib.is_init_finished ssl)) [
          | inr still ↦
              let d : Running S = record c { ssl = lib.do_handshake ssl } in
              let branch : data_received_cb lib buf c ≡ d =
                second c d
                  (sctp_input read.0 (record c { ssl = read.1; dtls_handshake_done = true }))
                  c.negotiation_done (c.dtls_handshake_done || lib.is_init_finished ssl) n still in
              subst (λ x. IsMove c x) (sym branch)
                (on_path-IsMove c d n (ssl-IsOnPath (lib.do_handshake ssl) c n))
          | inl done ↦
              let d : Running S = record c { ssl = read.1; dtls_handshake_done = true } in
              let first : IsOnPath c d = record {
                path = n;
                dtls = inr refl;
                sctp = refl;
                ice = refl;
                more = [];
                outputs = sym (append-nil c.outputs);
                allowed = tt;
              } in
              let branch : data_received_cb lib buf c ≡ sctp_input read.0 d =
                third c (record c { ssl = lib.do_handshake ssl }) (sctp_input read.0 d)
                  c.negotiation_done (c.dtls_handshake_done || lib.is_init_finished ssl) n done in
              subst (λ x. IsMove c x) (sym branch)
                (on_path-IsMove c (sctp_input read.0 d) n (
                  IsOnPath-then c d (sctp_input read.0 d) first
                    (sctp_input-IsOnPath read.0 d n refl)))
        ]
      ]

  pub sctp_to_dtls-goes :
      (c d : Running S) → sctp_to_dtls lib c ≡ goes d → (c.negotiation_done ≡ true) × IsOnPath c d
  unfolding sctp_to_dtls
  sctp_to_dtls-goes c d h =
      let (n, rest) = await_goes c.exit_thread c.negotiation_done _ d h in
      let (done, ran) = await_goes c.exit_thread c.dtls_handshake_done _ d rest in
      let e : Running S = record c { outgoing_bio = drop buffer_size c.outgoing_bio } in
      let text = take buffer_size c.outgoing_bio in
      let first : IsOnPath c e = record {
        path = n;
        dtls = inl refl;
        sctp = refl;
        ice = refl;
        more = [];
        outputs = sym (append-nil c.outputs);
        allowed = tt;
      } in
      let same : write_ssl lib text e ≡ d = cc in
      (
        n,
        subst (λ x. IsOnPath c x) same
            (IsOnPath-then c e (write_ssl lib text e) first (write_ssl-IsOnPath text e n)),
      )

  pub dtls_to_ice-goes : (c d : Running S) → dtls_to_ice lib c ≡ goes d → IsOnPath c d
  unfolding dtls_to_ice
  dtls_to_ice-goes c d h =
      let (g, rest) = await_goes c.exit_thread c.gathering_done _ d h in
      let (n, ran) = await_goes c.exit_thread c.negotiation_done _ d rest in
      let flushed = flush-IsOnPath c n in
      let same : go_on_handshake lib (flush_dtls lib c) ≡ d = cc in
      subst (λ x. IsOnPath c x) same
        (IsOnPath-then c (flush_dtls lib c) (go_on_handshake lib (flush_dtls lib c)) flushed
          (go_on-IsOnPath (flush_dtls lib c) flushed.path))

  pub sctp_work-IsMove : (c d : Running S) → dtls_to_sctp lib c ≡ goes d → IsMove c d
  unfolding dtls_to_sctp
  sctp_work-IsMove c d h =
      let (n, rest) = await_goes c.exit_thread c.negotiation_done _ d h in
      let (done, ran) = await_goes c.exit_thread c.dtls_handshake_done _ d rest in
      let same : conninput c.incoming_bio c ≡ d = cc in
      subst (λ x. IsMove c x) same
        (on_path-IsMove c _ n (conninput-IsOnPath c.incoming_bio c n done))
