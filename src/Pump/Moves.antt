-- ===== src/Pump/Moves.antt =====
-- What each callback and each turn of a thread does to the flags and to the outputs.
use librtcdc.Base.{
  ◌≡◌, refl, sym, ◌∙◌, Bool, true, false, ◌⊎◌, inl, inr, Bytes, List, All, [], ◌∷◌, ◌++◌,
  append-nil, append_assoc,
}
use librtcdc.Transfer.Lines.{take}
use librtcdc.Sdp.{buffer_size}
use librtcdc.Pump.{
  Output, nice_agent_send, usrsctp_conninput, usrsctp_connect, usrsctp_listen, on_candidate,
  on_connect, Running, pumping, conninput, sctp_input, send_out, candidate_gathering_done_cb,
  new_selected_pair_cb, new_local_candidate_cb,
}
use librtcdc.Pump.Phases.{unchanged, path_found, dtls_done, IsMove, IsAllowed}

IsAllowed-later :
    (n m d e : Bool) (os : List Output)
    → (n ≡ true → m ≡ true)
    → (d ≡ true → e ≡ true)
    → All (IsAllowed n d) os
    → All (IsAllowed m e) os
IsAllowed-later n m d e [] f g h = tt
IsAllowed-later n m d e (nice_agent_send text ∷ os) f g h =
    (f h.0, IsAllowed-later n m d e os f g h.1)
IsAllowed-later n m d e (usrsctp_conninput text ∷ os) f g h =
    (g h.0, IsAllowed-later n m d e os f g h.1)
IsAllowed-later n m d e (usrsctp_connect port ∷ os) f g h =
    (g h.0, IsAllowed-later n m d e os f g h.1)
IsAllowed-later n m d e (usrsctp_listen ∷ os) f g h = (g h.0, IsAllowed-later n m d e os f g h.1)
IsAllowed-later n m d e (on_candidate text ∷ os) f g h = (tt, IsAllowed-later n m d e os f g h.1)
IsAllowed-later n m d e (on_connect ∷ os) f g h = (g h.0, IsAllowed-later n m d e os f g h.1)

pub IsAllowed-more :
    (n m d e : Bool) (os more : List Output)
    → (n ≡ true → m ≡ true)
    → (d ≡ true → e ≡ true)
    → All (IsAllowed n d) os
    → All (IsAllowed m e) more
    → All (IsAllowed m e) (os ++ more)
IsAllowed-more n m d e [] more f g h k = k
IsAllowed-more n m d e (o ∷ os) more f g h k =
    ((IsAllowed-later n m d e (o ∷ []) f g (h.0, tt)).0, IsAllowed-more n m d e os more f g h.1 k)

module _ {S : Type 0} where
  -- Nothing that matters is changed, and one output is added, or none.
  pub quiet-IsMove :
      (c d : Running S) (more : List Output)
      → d.negotiation_done ≡ c.negotiation_done
      → d.dtls_handshake_done ≡ c.dtls_handshake_done
      → d.sctp_handshake_done ≡ c.sctp_handshake_done
      → (d.ice ≡ pumping → (c.ice ≡ pumping) ⊎ (c.negotiation_done ≡ true))
      → d.outputs ≡ c.outputs ++ more
      → All (IsAllowed d.negotiation_done d.dtls_handshake_done) more
      → IsMove c d
  quiet-IsMove c d more a b e i o w = record {
    change = unchanged a b e;
    patient = i;
    more = more;
    outputs = o;
    allowed = w;
  }

  pub gathering-IsMove : (c : Running S) → IsMove c (candidate_gathering_done_cb c)
  unfolding candidate_gathering_done_cb
  gathering-IsMove c =
      quiet-IsMove c (record c { gathering_done = true }) [] refl refl refl (λ h. inl h)
        (sym (append-nil c.outputs)) tt

  pub selected_pair-IsMove : (c : Running S) → IsMove c (new_selected_pair_cb c)
  unfolding new_selected_pair_cb
  selected_pair-IsMove c = record {
    change = path_found refl refl refl;
    patient = λ h. inl h;
    more = [];
    outputs = sym (append-nil c.outputs);
    allowed = tt;
  }

  pub local_candidate-IsMove :
      (b : Bool) (text : Bytes) (c : Running S) → IsMove c (new_local_candidate_cb b text c)
  unfolding new_local_candidate_cb
  local_candidate-IsMove true text c =
      quiet-IsMove c (record c { outputs = c.outputs ++ on_candidate text ∷ [] })
        (on_candidate text ∷ []) refl refl refl (λ h. inl h) refl (tt, tt)
  local_candidate-IsMove false text c =
      quiet-IsMove c c [] refl refl refl (λ h. inl h) (sym (append-nil c.outputs)) tt

  pub quit-IsMove : (c : Running S) → IsMove c (record c { exit_thread = true })
  quit-IsMove c =
      quiet-IsMove c (record c { exit_thread = true }) [] refl refl refl (λ h. inl h)
        (sym (append-nil c.outputs)) tt

  -- The moves that keep the path and follow each other.
  pub record IsOnPath (c d : Running S) : Type 0 where
    pub path : d.negotiation_done ≡ true
    pub dtls : (d.dtls_handshake_done ≡ c.dtls_handshake_done) ⊎ (d.dtls_handshake_done ≡ true)
    pub sctp : d.sctp_handshake_done ≡ c.sctp_handshake_done
    pub ice : d.ice ≡ c.ice
    pub more : List Output
    pub outputs : d.outputs ≡ c.outputs ++ more
    pub allowed : All (IsAllowed d.negotiation_done d.dtls_handshake_done) more

  stays_done :
      (c d : Running S)
      → (d.dtls_handshake_done ≡ c.dtls_handshake_done) ⊎ (d.dtls_handshake_done ≡ true)
      → c.dtls_handshake_done ≡ true
      → d.dtls_handshake_done ≡ true
  stays_done c d (inl same) h = same ∙ h
  stays_done c d (inr done) h = done

  pub IsOnPath-then : (c d e : Running S) → IsOnPath c d → IsOnPath d e → IsOnPath c e
  IsOnPath-then c d e x y = record {
    path = y.path;
    dtls = elim y.dtls [
      | inr done ↦ inr done
      | inl same ↦ elim x.dtls [ inr done ↦ inr (same ∙ done) | inl before ↦ inl (same ∙ before) ]
    ];
    sctp = y.sctp ∙ x.sctp;
    ice = y.ice ∙ x.ice;
    more = x.more ++ y.more;
    outputs = let first = x.outputs in y.outputs ∙ rw first (append_assoc c.outputs x.more y.more);
    allowed =
        IsAllowed-more d.negotiation_done e.negotiation_done d.dtls_handshake_done
          e.dtls_handshake_done x.more y.more (λ h. y.path) (stays_done d e y.dtls) x.allowed
          y.allowed;
  }

  pub on_path-IsMove : (c d : Running S) → c.negotiation_done ≡ true → IsOnPath c d → IsMove c d
  on_path-IsMove c d n x =
      let same_ice = x.ice in
      let path = x.path ∙ sym n in
      let still = x.sctp in
      record {
        change = elim x.dtls [
          | inl same ↦ unchanged path same still
          | inr done ↦ dtls_done n x.path done still
        ];
        patient = λ h. inl (sym same_ice ∙ h);
        more = x.more;
        outputs = x.outputs;
        allowed = x.allowed;
      }

  pub ssl-IsOnPath :
      (ssl : S) (c : Running S) → c.negotiation_done ≡ true → IsOnPath c (record c { ssl = ssl })
  ssl-IsOnPath ssl c n = record {
    path = n;
    dtls = inl refl;
    sctp = refl;
    ice = refl;
    more = [];
    outputs = sym (append-nil c.outputs);
    allowed = tt;
  }

  pub send_out-IsOnPath :
      (text : Bytes) (c : Running S) → c.negotiation_done ≡ true → IsOnPath c (send_out text c)
  send_out-IsOnPath [] c n = ssl-IsOnPath c.ssl c n
  send_out-IsOnPath (b ∷ text) c n = record {
    path = n;
    dtls = inl refl;
    sctp = refl;
    ice = refl;
    more = nice_agent_send (b ∷ text) ∷ [];
    outputs = refl;
    allowed = (n, tt);
  }

  pub conninput-IsOnPath :
      (text : Bytes) (c : Running S)
      → c.negotiation_done ≡ true
      → c.dtls_handshake_done ≡ true
      → IsOnPath c (conninput text c)
  conninput-IsOnPath [] c n d = ssl-IsOnPath c.ssl c n
  conninput-IsOnPath (b ∷ text) c n d = record {
    path = n;
    dtls = inl refl;
    sctp = refl;
    ice = refl;
    more = usrsctp_conninput (take buffer_size (b ∷ text)) ∷ [];
    outputs = refl;
    allowed = (d, tt);
  }

  pub sctp_input-IsOnPath :
      (text : Bytes) (c : Running S)
      → c.negotiation_done ≡ true
      → c.dtls_handshake_done ≡ true
      → IsOnPath c (sctp_input text c)
  sctp_input-IsOnPath [] c n d = ssl-IsOnPath c.ssl c n
  sctp_input-IsOnPath (b ∷ text) c n d = conninput-IsOnPath (c.incoming_bio ++ (b ∷ text)) c n d
