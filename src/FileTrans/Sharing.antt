-- ===== src/FileTrans/Sharing.antt =====
-- What the other peer gets of the candidates of one peer through the signaling, and what an answer is for.
use librtcdc.Base.{
  ℕ, ◌<◌, ◌≡◌, refl, ◌∙◌, true, some, List, [], ◌∷◌, ◌++◌, Bytes, All, map, arith, length, inl, inr,
  Option-cases,
}
use librtcdc.Sdp.Splitting.{Glib, IsGlib}
use librtcdc.Sdp.{Agent, parse_candidates_of}
use librtcdc.Candidates.{parsed, parse_candidates, on_candidate}
use librtcdc.Candidates.Lines.{IsCandidate, collect, collect_parse}
use librtcdc.FileTrans.Signal.{
  SdpContext, recv_sdp_context, send_local_candidate, req_sdp_context, SessionData, Signal,
  LwsReason, client_established, client_connection_error, lws_closed, client_writeable, lws_other,
  client_receive, write_session, take_answer, callback_signal, run_callbacks, signal_send,
  session_of, signal_send_candidate, answer_of, answered, poll, signal_req, add_candidate,
  share_candidate, share_all,
}

-- The message with the candidates.
abbrev pub candidates_of : Bytes → Bytes → SessionData
candidates_of name text = record { state = send_local_candidate; peer_name = name; contents = text }

callback_data :
    (r : LwsReason) (s t : Signal) → callback_signal r s ≡ some t → t.session_data ≡ s.session_data
unfolding callback_signal write_session take_answer
callback_data client_established s t e = ground arith
callback_data client_connection_error s t e = ground arith
callback_data lws_closed s t e = ground arith
callback_data client_writeable s t e = ground arith
callback_data lws_other s t e = ground arith
callback_data (client_receive c) s t e = ground arith

-- Callbacks leave the data that waits.
pub callbacks_data :
    (reasons : List LwsReason) (s t : Signal)
    → run_callbacks reasons s ≡ some t
    → t.session_data ≡ s.session_data
unfolding run_callbacks
callbacks_data [] s t e = ground arith
callbacks_data (r ∷ reasons) s t e = elim (Option-cases (callback_signal r s)) [
  | inl fault ↦ cc (rw fault at e)
  | inr (u, done) ↦ callbacks_data reasons u t (rw done at e) ∙ callback_data r s u done
]

-- One candidate: it is collected, and the message with all so far waits.
shared_one :
    (name before candidate text : Bytes) (reasons : List LwsReason) (s t : Signal)
    → share_candidate name before candidate reasons s ≡ some (text, t)
    → (on_candidate before candidate ≡ some text)
      × (t.session_data ≡ some (candidates_of name text))
unfolding share_candidate add_candidate on_candidate signal_send_candidate session_of signal_send
shared_one name before candidate text reasons s t e =
    let longer = before ++ (candidate ++ 10 ∷ []) in
    let data_now : Signal = record s { session_data = some (candidates_of name longer) } in
    elim (Option-cases (run_callbacks reasons data_now)) [
      | inl fault ↦ (ground arith, ground arith)
      | inr (u, done) ↦
          let kept = callbacks_data reasons data_now u done in (ground arith, ground (arith, kept))
    ]

-- All of them.
shared_all :
    (name before text : Bytes) (cs : List (Bytes × List LwsReason)) (s t : Signal)
    → s.session_data ≡ some (candidates_of name before)
    → share_all name cs before s ≡ some (text, t)
    → (collect before (map (λ c. c.0) cs) ≡ some text)
      × (t.session_data ≡ some (candidates_of name text))
unfolding share_all
shared_all name before text [] s t there e = (ground arith, ground arith)
shared_all name before text ((candidate, reasons) ∷ cs) s t there e =
    elim (Option-cases (share_candidate name before candidate reasons s)) [
      | inl fault ↦ cc (rw fault at e)
      | inr ((longer, u), done) ↦
          let (collected, waits) = shared_one name before candidate longer reasons s u done in
          let (rest, last) = shared_all name longer text cs u t waits (rw done at e) in
          (rw collected rest, last)
    ]

-- If a peer has shared at least one candidate, whatever of its messages the callbacks have written meanwhile,
-- then the next writeable callback writes the message with all of them, of which the other peer hands each
-- to libnice that it reads, alone and in order, if they are short lines.
pub candidates_shared :
    {C : Type 0} (glib : Glib) (laws : IsGlib glib) (agent : Agent C) (name text candidate : Bytes)
    (reasons : List LwsReason) (cs : List (Bytes × List LwsReason)) (s t : Signal) (fuel : ℕ)
    → share_all name ((candidate, reasons) ∷ cs) [] s ≡ some (text, t)
    → All IsCandidate (candidate ∷ map (λ c. c.0) cs)
    → length text < fuel
    → (callback_signal client_writeable t
        ≡ some (record t { written = t.written ++ candidates_of name text ∷ [] }))
      × (parse_candidates glib agent fuel true text
          ≡ parsed
              (map (λ l. parse_candidates_of glib agent (l ∷ [])) (candidate ∷ map (λ c. c.0) cs)))
unfolding share_all callback_signal write_session
candidates_shared glib laws agent name text candidate reasons cs s t fuel e lines enough =
    elim (Option-cases (share_candidate name [] candidate reasons s)) [
      | inl fault ↦ cc (rw fault at e)
      | inr ((longer, u), done) ↦
          let (collected, waits) = shared_one name [] candidate longer reasons s u done in
          let (rest, last) = shared_all name longer text cs u t waits (rw done at e) in
          (
            rw last refl,
            collect_parse glib laws agent (candidate ∷ map (λ c. c.0) cs) text fuel lines
                (rw collected rest) enough,
          )
    ]

-- Nothing is received and no connection is established in between.
abbrev pub IsQuiet : LwsReason → Type 0
IsQuiet client_established = ⊥
IsQuiet (client_receive c) = ⊥
IsQuiet client_connection_error = Unit
IsQuiet lws_closed = Unit
IsQuiet client_writeable = Unit
IsQuiet lws_other = Unit

quiet_callback :
    (r : LwsReason) (s : Signal) (d : SessionData)
    → IsQuiet r
    → s.session_data ≡ some d
    → (t : Signal) × (callback_signal r s ≡ some t)
      × (t.recvd ≡ s.recvd)
      × (t.session_data ≡ some d)
unfolding callback_signal write_session
quiet_callback client_established s d q e = absurd q
quiet_callback client_connection_error s d q e = (s, refl, refl, e)
quiet_callback lws_closed s d q e = (record s { force_exit = true }, refl, refl, e)
quiet_callback client_writeable s d q e =
    (record s { written = s.written ++ d ∷ [] }, rw e refl, refl, e)
quiet_callback lws_other s d q e = (s, refl, refl, e)
quiet_callback (client_receive c) s d q e = absurd q

pub quiet_callbacks :
    (reasons : List LwsReason) (s : Signal) (d : SessionData)
    → All IsQuiet reasons
    → s.session_data ≡ some d
    → (t : Signal) × (run_callbacks reasons s ≡ some t) × (t.recvd ≡ s.recvd)
unfolding run_callbacks
quiet_callbacks [] s d q e = (s, refl, refl)
quiet_callbacks (r ∷ reasons) s d q e =
    let (t, done, same, waits) = quiet_callback r s d q.0 e in
    let (u, rest, kept) = quiet_callbacks reasons t d q.1 waits in (u, rw done rest, kept ∙ same)

-- Once an answer has come, a request for any other peer returns that answer at once, if nothing is received
-- while it sends: the answer of an earlier request is never taken away.
pub request_stale :
    (name : Bytes) (reasons : List LwsReason) (looks : List (List LwsReason)) (s : Signal)
    (c : SdpContext)
    → s.recvd ≡ some c
    → c.state ≡ recv_sdp_context
    → length name < 128
    → All IsQuiet reasons
    → (t : Signal) × (signal_req name reasons looks s ≡ some (some c, t))
unfolding signal_req session_of signal_send answered answer_of poll
request_stale name reasons looks s c there state short quiet =
    let asked : SessionData = record { state = req_sdp_context; peer_name = name; contents = [] } in
    let (t, done, same) =
      quiet_callbacks reasons (record s { session_data = some asked }) asked quiet refl in
    (t, ground (arith, done, same))
