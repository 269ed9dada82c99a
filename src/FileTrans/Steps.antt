-- ===== src/FileTrans/Steps.antt =====
-- What main of examples/file_trans does before its event loop, where nothing is received but the answer that
-- it waits for.
use librtcdc.Base.{
  suc, ◌<◌, ◌≡◌, refl, ap, ◌∙◌, true, Option, none, some, List, [], ◌∷◌, Bytes, All, map, arith,
  length, ℤ,
}
use librtcdc.Sdp.Splitting.{Glib, IsGlib}
use librtcdc.Sdp.{
  Local, Agent, Party, parse_candidates_of, rtcdc_generate_offer_sdp, rtcdc_parse_offer_sdp,
}
use librtcdc.Candidates.{parse_candidates}
use librtcdc.Candidates.Lines.{IsCandidate, collect, collect_parse}
use librtcdc.FileTrans.Signal.{
  SdpContext, send_local_sdp, recv_sdp_context, req_sdp_context, SessionData, Signal, LwsReason,
  client_receive, take_answer, callback_signal, run_callbacks, signal_send, session_of,
  signal_send_sdp, answer_of, answered, poll, signal_req, message_size, name_size,
}
use librtcdc.FileTrans.Sharing.{IsQuiet, callbacks_data, quiet_callbacks}
use librtcdc.FileTrans.Main.{announce, hear_context, go_on, meet}

-- The text that waits to be sent.
abbrev pub waiting_text : Option SessionData → Bytes
waiting_text none = []
waiting_text (some d) = d.contents

-- A description is sent while nothing is received.
sent_sdp :
    (name text : Bytes) (reasons : List LwsReason) (s : Signal)
    → length name < name_size
    → length text < message_size
    → All IsQuiet reasons
    → (t : Signal) × (signal_send_sdp name text reasons s ≡ some t)
      × (waiting_text t.session_data ≡ text)
      × (t.recvd ≡ s.recvd)
unfolding signal_send_sdp session_of signal_send
sent_sdp name text reasons s short fits quiet =
    let d : SessionData = record { state = send_local_sdp; peer_name = name; contents = text } in
    let before : Signal = record s { session_data = some d } in
    let (t, done, same) = quiet_callbacks reasons before d quiet refl in
    let kept = callbacks_data reasons before t done in (t, ground (arith, done), rw kept refl, same)

-- The other peer is asked for, and the answer arrives at the first look.
asked_for :
    (name : Bytes) (reasons : List LwsReason) (s : Signal) (c : SdpContext)
    → s.recvd ≡ none
    → c.state ≡ recv_sdp_context
    → length name < name_size
    → All IsQuiet reasons
    → (t : Signal) × (signal_req name reasons ((client_receive c ∷ []) ∷ []) s ≡ some (some c, t))
unfolding signal_req session_of signal_send answered answer_of poll run_callbacks callback_signal
    take_answer
asked_for name reasons s c nothing state short quiet =
    let asked : SessionData = record { state = req_sdp_context; peer_name = name; contents = [] } in
    let before : Signal = record s { session_data = some asked } in
    let (t, done, same) = quiet_callbacks reasons before asked quiet refl in
    (record t { recvd = some c }, ground (arith, done, same, nothing, state))

pub announced :
    (glib : Glib) (l : Local) (name text : Bytes) (reasons : List LwsReason) (p q : Party)
    (s : Signal)
    → rtcdc_generate_offer_sdp glib l p ≡ some (some text, q)
    → length name < name_size
    → length text < message_size
    → All IsQuiet reasons
    → (t : Signal) × (announce glib l name reasons p s ≡ some (q, t))
      × (waiting_text t.session_data ≡ text)
      × (t.recvd ≡ s.recvd)
unfolding announce
announced glib l name text reasons p q s made short fits quiet =
    let (t, sent, waits, same) = sent_sdp name text reasons s short fits quiet in
    (t, rw (made, sent) refl, waits, same)

module _ {C : Type 0} (glib : Glib) (laws : IsGlib glib) (agent : Agent C) where
  -- The candidates of the lines, each handed over alone.
  abbrev pub each_line : List Bytes → List (List C)
  each_line = map (λ l. parse_candidates_of glib agent (l ∷ []))

  -- The other peer is heard and the description sent again.
  pub meets :
      (l : Local) (name remote text : Bytes) (before after : List LwsReason) (c : SdpContext)
      (lines : List Bytes) (p q : Party) (result : ℤ) (s : Signal)
      → s.recvd ≡ none
      → c.state ≡ recv_sdp_context
      → length name < name_size
      → length remote < name_size
      → All IsQuiet before
      → All IsQuiet after
      → rtcdc_parse_offer_sdp glib agent l (some c.sdp) p ≡ some (result, q)
      → q.link.transport ≡ true
      → All IsCandidate lines
      → collect [] lines ≡ some c.candidate
      → rtcdc_generate_offer_sdp glib l q ≡ some (some text, q)
      → length text < message_size
      → (t : Signal) × (meet glib agent l name remote before
            ((client_receive c ∷ []) ∷ [])
            after
            p
            s
          ≡ some
              (some (record { result = result; handed = each_line lines; party = q; signal = t })))
        × (waiting_text t.session_data ≡ text)
  unfolding meet go_on hear_context
  meets l name remote text before after c lines p q result s nothing state short there quiet calm
        heard up lines_short collected made fits =
      let (u, asked) = asked_for remote before s c nothing state there quiet in
      let (t, sent, waits, same) = announced glib l name text after q q u made short fits calm in
      let loop =
        ap (λ b. parse_candidates glib agent (suc (length c.candidate)) b c.candidate) up
        ∙ collect_parse glib laws agent lines c.candidate (suc (length c.candidate)) lines_short
            collected (omega arith) in
      (t, rw (asked, heard, loop, sent) refl, waits)
