-- ===== src/Pump/Opening.antt =====
-- How startup_thread opens the association.
use librtcdc.Base.{ℕ, ◌≡◌, refl, ap, ◌∙◌, Bool, true, false, if◌then◌else◌, [], ◌∷◌, ◌++◌}
use librtcdc.Peer.{Role, client, server, unknown}
use librtcdc.Pump.{
  Ssl, Output, usrsctp_connect, usrsctp_listen, on_connect, Running, wait_ice, wait_dtls,
  startup_ended, begin_handshake, open_sctp, startup_turn,
}

-- The first stream id of a role, and what usrsctp is told.
abbrev pub first_stream : Role → ℕ
first_stream client = 0
first_stream server = 1
first_stream unknown = 1

abbrev pub opening_of : {S : Type 0} → Role → Running S → Output
opening_of client c = usrsctp_connect c.remote_port
opening_of server c = usrsctp_listen
opening_of unknown c = usrsctp_listen

middle :
    {A : Type 0} (x y z : A) (e f : Bool)
    → e ≡ false
    → f ≡ true
    → (if e then x else if f then y else z) ≡ y
middle x y z e f h k = rw (h, k) refl

module _ {S : Type 0} (lib : Ssl S) where
  open_sctp_opens :
      (role : Role) (c : Running S)
      → open_sctp role true true c ≡ record c {
        stream_cursor = first_stream role;
        sctp_handshake_done = true;
        outputs = (c.outputs ++ opening_of role c ∷ []) ++ on_connect ∷ [];
      }
  unfolding open_sctp
  open_sctp_opens client c = refl
  open_sctp_opens server c = refl
  open_sctp_opens unknown c = refl

  opening_same :
      (role : Role) (c : Running S) (ssl : S)
      → opening_of role (record c { ssl = ssl; startup = startup_ended }) ≡ opening_of role c
  opening_same client c ssl = refl
  opening_same server c ssl = refl
  opening_same unknown c ssl = refl

  -- If startup_thread waits for a path, libnice has found one, the main loop runs, and the DTLS handshake
  -- is done, then two turns open the association where usrsctp connects or accepts: the stream ids begin at 0
  -- for the client and at 1 for the server, the client has told usrsctp to connect to the remote port and the
  -- server to listen, and on_connect is called.
  pub startup_opens :
      (c d : Running S)
      → c.startup ≡ wait_ice
      → c.exit_thread ≡ false
      → c.negotiation_done ≡ true
      → c.dtls_handshake_done ≡ true
      → d ≡ startup_turn lib true true c.startup c
      → startup_turn lib true true d.startup d ≡ record c {
        ssl = begin_handshake lib c.role c.ssl;
        startup = startup_ended;
        stream_cursor = first_stream c.role;
        sctp_handshake_done = true;
        outputs = (c.outputs ++ opening_of c.role c ∷ []) ++ on_connect ∷ [];
      }
  unfolding startup_turn
  startup_opens c d waits goes_on path done turned =
      let begun : Running S = record c {
        ssl = begin_handshake lib c.role c.ssl;
        startup = wait_dtls;
      } in
      let first : startup_turn lib true true c.startup c ≡ begun =
        ap (λ t. startup_turn lib true true t c) waits
        ∙ middle (record c { startup = startup_ended }) begun c c.exit_thread c.negotiation_done
            goes_on path in
      let again : startup_turn lib true true wait_dtls begun
          ≡ open_sctp c.role true true (record begun { startup = startup_ended }) =
        middle (record begun { startup = startup_ended })
          (open_sctp c.role true true (record begun { startup = startup_ended })) begun
          c.exit_thread c.dtls_handshake_done goes_on done in
      ap (λ x. startup_turn lib true true x.startup x) (turned ∙ first)
      ∙ again
      ∙ open_sctp_opens c.role (record begun { startup = startup_ended })
      ∙ ap
          (λ o. record begun {
            startup = startup_ended;
            stream_cursor = first_stream c.role;
            sctp_handshake_done = true;
            outputs = (c.outputs ++ o ∷ []) ++ on_connect ∷ [];
          })
          (opening_same c.role c (begin_handshake lib c.role c.ssl))
