-- ===== src/FileTrans/Meeting.antt =====
-- Two programs of examples/file_trans that meet through the signaling server.
use librtcdc.Base.{
  ℕ, ◌<◌, ◌≡◌, refl, ◌∙◌, Bool, true, false, not, Option, none, some, List, [], ◌∷◌, Bytes, All,
  arith, if◌then◌else◌, length, ℤ, pos, ◌>>=◌,
}
use librtcdc.Peer.{Role, client, server}
use librtcdc.Lifecycle.{Globals}
use librtcdc.Sdp.Splitting.{Glib, IsGlib}
use librtcdc.Sdp.{Local, Agent, Party, crlf_text, rtcdc_generate_offer_sdp, rtcdc_parse_offer_sdp}
use librtcdc.Sdp.Exchange.{IsPlain}
use librtcdc.Sdp.Agreement.{
  IsFresh, described, handed, connected, port_of, offer_made, offer_read, made_again, answer_heard,
}
use librtcdc.Candidates.Lines.{IsCandidate, collect}
use librtcdc.FileTrans.Signal.{
  SdpContext, recv_sdp_context, Signal, LwsReason, client_receive, message_size, name_size,
}
use librtcdc.FileTrans.Sharing.{IsQuiet}
use librtcdc.FileTrans.Main.{Met, announce, meet}
use librtcdc.FileTrans.Steps.{waiting_text, announced, each_line, meets}

-- One of the two programs: the name of its peer, and the candidates that have been collected.
pub record Caller : Type 0 where
  pub name : Bytes
  pub own : Local
  pub party : Party
  pub globals : Globals
  pub count : ℕ
  pub signal : Signal
  pub lines : List Bytes
  pub candidates : Bytes

-- What the signaling server makes of the last description and the last candidates that it was sent.
abbrev pub relayed : Caller → Signal → SdpContext
relayed c s = record {
  peer_name = c.name;
  sdp = waiting_text s.session_data;
  candidate = c.candidates;
  state = recv_sdp_context;
}

module _ (glib : Glib) (laws : IsGlib glib) where
  -- Its transport can be made, nothing was received yet, and all texts fit the messages.
  pub record IsCaller (c : Caller) : Type 0 where
    pub fresh : IsFresh c.count c.own c.party c.globals
    pub plain : IsPlain glib laws c.own
    pub offer_fits : length (crlf_text (described glib c.own true)) < message_size
    pub answer_fits : length (crlf_text (described glib c.own false)) < message_size
    pub name_fits : length c.name < name_size
    pub nothing : c.signal.recvd ≡ none
    pub lines_short : All IsCandidate c.lines
    pub collected : collect [] c.lines ≡ some c.candidates

  module _ {C : Type 0} (agent : Agent C) where
    -- Both programs until their event loops. The first asks when the other has sent its first description; the
    -- second asks late, when the first has sent its second description, or when it has sent only one.
    abbrev pub meeting :
        (late : Bool) → (ℕ → List LwsReason) → Caller → Caller → Option (Met C × Met C)
    meeting late pauses c d = do
      a ← announce glib c.own c.name (pauses 0) c.party c.signal
      b ← announce glib d.own d.name (pauses 1) d.party d.signal
      first ←
          meet glib agent c.own c.name d.name (pauses 2)
            ((client_receive (relayed d b.1) ∷ []) ∷ []) (pauses 3) a.0 a.1
      met ← first
      let last : Signal = if late then met.signal else a.1
      second ←
          meet glib agent d.own d.name c.name (pauses 4)
            ((client_receive (relayed c last) ∷ []) ∷ []) (pauses 5) b.0 b.1
      done ← second
      some (met, done)

    -- How one side of a meeting ends: the role, whether it heard an active peer, and its signaling then.
    abbrev pub ends : Caller → Caller → Role → Bool → Signal → Met C
    ends c d role active s = record {
      result = agent.parse_remote_sdp (handed glib d.own active);
      handed = each_line glib laws agent d.lines;
      party = connected c.own c.party c.globals role (pos (port_of d.own));
      signal = s;
    }

    -- The role that a client takes when it hears the other side.
    abbrev pub role_beside : Bool → Role
    role_beside true = server
    role_beside false = client

    -- The text that a side with the role sends.
    abbrev pub text_of : Caller → Bool → Bytes
    text_of c active = crlf_text (described glib c.own active)

    hears :
        (active : Bool) (c d : Caller)
        → IsCaller d
        → rtcdc_parse_offer_sdp glib agent c.own
            (some (text_of d active))
            (connected c.own c.party c.globals client (pos 0))
          ≡ some (
            agent.parse_remote_sdp (handed glib d.own active),
            connected c.own c.party c.globals (role_beside active) (pos (port_of d.own)),
          )
    hears true c d h =
        offer_read glib laws agent d.own c.own c.party c.globals h.plain
          (omega (arith, h.offer_fits))
    hears false c d h =
        answer_heard glib laws agent c.own d.own c.party c.globals h.plain
          (omega (arith, h.answer_fits))

    says_again :
        (active : Bool) (c : Caller) (port : ℤ)
        → IsCaller c
        → (rtcdc_generate_offer_sdp glib c.own
              (connected c.own c.party c.globals (role_beside active) port)
            ≡ some (
              some (text_of c (not active)),
              connected c.own c.party c.globals (role_beside active) port,
            ))
          × (length (text_of c (not active)) < message_size)
    says_again true c port h = (
      made_again glib laws c.own c.party c.globals server port (omega (arith, h.answer_fits)),
      h.answer_fits,
    )
    says_again false c port h = (
      made_again glib laws c.own c.party c.globals client port (omega (arith, h.offer_fits)),
      h.offer_fits,
    )

    -- One side hears the other, of which a description waits.
    side_meets :
        (active : Bool) (c d : Caller) (before after : List LwsReason) (s heard : Signal)
        → IsCaller c
        → IsCaller d
        → s.recvd ≡ none
        → waiting_text heard.session_data ≡ text_of d active
        → All IsQuiet before
        → All IsQuiet after
        → (t : Signal) × (meet glib agent c.own c.name d.name before
              ((client_receive (relayed d heard) ∷ []) ∷ [])
              after
              (connected c.own c.party c.globals client (pos 0))
              s
            ≡ some (some (ends c d (role_beside active) active t)))
          × (waiting_text t.session_data ≡ text_of c (not active))
    side_meets active c d before after s heard hc hd nothing waits quiet calm =
        let again = says_again active c (pos (port_of d.own)) hc in
        meets glib laws agent c.own c.name d.name (text_of c (not active)) before after
          (relayed d heard) d.lines (connected c.own c.party c.globals client (pos 0))
          (connected c.own c.party c.globals (role_beside active) (pos (port_of d.own)))
          (agent.parse_remote_sdp (handed glib d.own active)) s nothing refl hc.name_fits
          hd.name_fits quiet calm (rw waits (hears active c d hd)) refl hd.lines_short hd.collected
          again.0 again.1

    -- The first description of a program.
    begins :
        (c : Caller) (pause : List LwsReason)
        → IsCaller c
        → All IsQuiet pause
        → (t : Signal) × (announce glib c.own c.name pause c.party c.signal
            ≡ some (connected c.own c.party c.globals client (pos 0), t))
          × (waiting_text t.session_data ≡ text_of c true)
          × (t.recvd ≡ c.signal.recvd)
    begins c pause h quiet =
        announced glib c.own c.name (text_of c true) pause c.party
          (connected c.own c.party c.globals client (pos 0)) c.signal
          (offer_made glib laws c.count c.own c.party c.globals h.fresh
            (omega (arith, h.offer_fits)))
          h.name_fits h.offer_fits quiet

    -- If two programs with new peers, whose texts fit the messages, send their descriptions, ask for each other
    -- and hear each other, with nothing received in between, then neither faults nor waits, and each has been
    -- handed the description and each candidate of the other. The first to ask is the server. The second is the
    -- client if it asks late, when the first has sent its second description; but if it asks when the first has
    -- sent only one, it is a server too.
    pub mains_meet :
        (late : Bool) (pauses : ℕ → List LwsReason) (c d : Caller)
        → IsCaller c
        → IsCaller d
        → ((i : ℕ) → All IsQuiet (pauses i))
        → (s t : Signal) × (meeting late pauses c d
            ≡ some (ends c d server true s, ends d c (role_beside (not late)) (not late) t))
    mains_meet late pauses c d hc hd quiet =
        let (a, begun, a_waits, a_same) = begins c (pauses 0) hc (quiet 0) in
        let (b, begun_too, b_waits, b_same) = begins d (pauses 1) hd (quiet 1) in
        let (s, met, s_waits) =
          side_meets true c d (pauses 2) (pauses 3) a b hc hd (a_same ∙ hc.nothing) b_waits
            (quiet 2) (quiet 3) in
        let last : Signal = if late then s else a in
        let last_waits : waiting_text last.session_data ≡ text_of c (not late) =
          elim late
            as (λ k.
              let said : Signal = if k then s else a in
              waiting_text said.session_data ≡ text_of c (not k)) [
                | true ↦ s_waits
                | false ↦ a_waits
              ] in
        let (t, done, _) =
          side_meets (not late) d c (pauses 4) (pauses 5) b last hd hc (b_same ∙ hd.nothing)
            last_waits (quiet 4) (quiet 5) in
        (s, t, rw (begun, begun_too, met, done) refl)
