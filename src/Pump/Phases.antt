-- ===== src/Pump/Phases.antt =====
-- The connection seen from outside: four phases, which come one after another.
use librtcdc.Base.{◌≡◌, refl, sym, ◌∙◌, Bool, true, false, ◌⊎◌, inl, inr, List, All, ◌++◌, arith}
use librtcdc.Pump.{
  Output, nice_agent_send, usrsctp_conninput, usrsctp_connect, usrsctp_listen, on_candidate,
  on_connect, Running, pumping,
}

-- Without a path; with one; with a DTLS handshake; with an SCTP association.
pub data Phase : Type 0 where
  unconnected negotiated secured associated : Phase

-- One phase after another, or none of that.
pub data Advance : Phase → Phase → Type 0 where
  stay : {p : Phase} → Advance p p
  negotiate : Advance unconnected negotiated
  secure : Advance negotiated secured
  associate : Advance secured associated

-- The flags of the three layers.
abbrev pub Flags : Type 0
Flags = Bool × Bool × Bool

abbrev pub phase_of : (negotiation dtls sctp : Bool) → Phase
phase_of n d true = associated
phase_of n true false = secured
phase_of true false false = negotiated
phase_of false false false = unconnected

-- The phases of flags that are set one after another.
found :
    (dtls sctp n : Bool)
    → (dtls ≡ true → n ≡ true)
    → (sctp ≡ true → dtls ≡ true)
    → Advance (phase_of n dtls sctp) (phase_of true dtls sctp)
found true true true h k = stay
found true false true h k = stay
found false false true h k = stay
found false false false h k = negotiate
found false true n h k = absurd (ground (arith, k refl))
found true sctp false h k = absurd (ground (arith, h refl))

finished :
    (dtls sctp : Bool)
    → (sctp ≡ true → dtls ≡ true)
    → Advance (phase_of true dtls sctp) (phase_of true true sctp)
finished true true k = stay
finished true false k = stay
finished false false k = secure
finished false true k = absurd (ground (arith, k refl))

joined : (n sctp : Bool) → Advance (phase_of n true sctp) (phase_of n true true)
joined n true = stay
joined n false = associate

-- Is the output allowed with these flags? Packets go out with a path only; usrsctp is fed and used
-- only behind a DTLS handshake.
abbrev pub IsAllowed : (negotiation dtls : Bool) → Output → Type 0
IsAllowed n d (nice_agent_send text) = n ≡ true
IsAllowed n d (usrsctp_conninput text) = d ≡ true
IsAllowed n d (usrsctp_connect port) = d ≡ true
IsAllowed n d usrsctp_listen = d ≡ true
IsAllowed n d (on_candidate text) = Unit
IsAllowed n d on_connect = d ≡ true

module _ {S : Type 0} where
  abbrev pub phase : Running S → Phase
  phase c = phase_of c.negotiation_done c.dtls_handshake_done c.sctp_handshake_done

  -- A layer is done only when the layer below it is, and ice_thread pumps only with a path.
  pub record IsLayered (c : Running S) : Type 0 where
    pub dtls : c.dtls_handshake_done ≡ true → c.negotiation_done ≡ true
    pub sctp : c.sctp_handshake_done ≡ true → c.dtls_handshake_done ≡ true
    pub ice : c.ice ≡ pumping → c.negotiation_done ≡ true

  -- The flags before and after a step.
  pub data Change (c d : Running S) : Type 0 where
    unchanged :
        d.negotiation_done ≡ c.negotiation_done
        → d.dtls_handshake_done ≡ c.dtls_handshake_done
        → d.sctp_handshake_done ≡ c.sctp_handshake_done
        → Change c d
    path_found :
        d.negotiation_done ≡ true
        → d.dtls_handshake_done ≡ c.dtls_handshake_done
        → d.sctp_handshake_done ≡ c.sctp_handshake_done
        → Change c d
    dtls_done :
        c.negotiation_done ≡ true
        → d.negotiation_done ≡ true
        → d.dtls_handshake_done ≡ true
        → d.sctp_handshake_done ≡ c.sctp_handshake_done
        → Change c d
    sctp_done :
        c.dtls_handshake_done ≡ true
        → d.negotiation_done ≡ c.negotiation_done
        → d.dtls_handshake_done ≡ true
        → d.sctp_handshake_done ≡ true
        → Change c d

  -- ice_thread begins to pump with a path only.
  abbrev pub IsPatient : Running S → Running S → Type 0
  IsPatient c d = d.ice ≡ pumping → (c.ice ≡ pumping) ⊎ (c.negotiation_done ≡ true)

  -- What a step does: to the flags nothing, or it sets the next one; and it adds outputs that are allowed.
  pub record IsMove (c d : Running S) : Type 0 where
    pub change : Change c d
    pub patient : IsPatient c d
    pub more : List Output
    pub outputs : d.outputs ≡ c.outputs ++ more
    pub allowed : All (IsAllowed d.negotiation_done d.dtls_handshake_done) more

  pub Change-keeps :
      (c d : Running S) → c.negotiation_done ≡ true → Change c d → d.negotiation_done ≡ true
  Change-keeps c d h (unchanged a b e) = a ∙ h
  Change-keeps c d h (path_found a b e) = a
  Change-keeps c d h (dtls_done n a b e) = a
  Change-keeps c d h (sctp_done n a b e) = a ∙ h

  pub move-IsLayered : (c d : Running S) → Change c d → IsPatient c d → IsLayered c → IsLayered d
  move-IsLayered c d k patient l =
      let pumps : d.ice ≡ pumping → d.negotiation_done ≡ true = λ h. elim (patient h) [
        | inl was ↦ Change-keeps c d (l.ice was) k
        | inr path ↦ Change-keeps c d path k
      ] in
      record { dtls = below_dtls k; sctp = below_sctp k; ice = pumps }
    where
      below_dtls : Change c d → d.dtls_handshake_done ≡ true → d.negotiation_done ≡ true
      below_dtls (unchanged a b e) h = a ∙ l.dtls (sym b ∙ h)
      below_dtls (path_found a b e) h = a
      below_dtls (dtls_done n a b e) h = a
      below_dtls (sctp_done n a b e) h = a ∙ l.dtls n

      below_sctp : Change c d → d.sctp_handshake_done ≡ true → d.dtls_handshake_done ≡ true
      below_sctp (unchanged a b e) h = b ∙ l.sctp (sym e ∙ h)
      below_sctp (path_found a b e) h = b ∙ l.sctp (sym e ∙ h)
      below_sctp (dtls_done n a b e) h = b
      below_sctp (sctp_done n a b e) h = b

  pub move-Advance : (c d : Running S) → Change c d → IsLayered c → Advance (phase c) (phase d)
  move-Advance c d (unchanged a b e) l = rw (a, b, e) stay
  move-Advance c d (path_found a b e) l =
      rw (a, b, e)
        (found c.dtls_handshake_done c.sctp_handshake_done c.negotiation_done l.dtls l.sctp)
  move-Advance c d (dtls_done n a b e) l =
      rw (n, a, b, e) (finished c.dtls_handshake_done c.sctp_handshake_done l.sctp)
  move-Advance c d (sctp_done n a b e) l =
      rw (n, a, b, e) (joined c.negotiation_done c.sctp_handshake_done)
