-- ===== src/FileTrans/Signal.antt =====
-- examples/file_trans/signal.c: the data that waits for the signaling server and the answer of the server,
-- both in one global variable; and on_candidate of send_file.c and recv_file.c. The callbacks that run while
-- a function sleeps are its argument.
use librtcdc.Base.{
  ℕ, Bool, true, Option, none, some, List, [], ◌∷◌, ◌++◌, Bytes, if◌then◌else◌, ltb, length, ◌>>=◌,
  ◌&&◌,
}
use librtcdc.Candidates.{GetLine, getline_candidates}

-- enum SDP_state
pub data SdpState : Type 0 where
  send_local_sdp send_local_candidate recv_sdp_context req_sdp_context : SdpState

-- struct SDP_context
pub record SdpContext : Type 0 where
  pub peer_name : Bytes
  pub sdp : Bytes
  pub candidate : Bytes
  pub state : SdpState

-- struct session_data__SDP
pub record SessionData : Type 0 where
  pub state : SdpState
  pub peer_name : Bytes
  pub contents : Bytes

-- signal_session_data, recvd_SDP and force_exit, and what libwebsocket_write was given so far.
pub record Signal : Type 0 where
  pub session_data : Option SessionData
  pub recvd : Option SdpContext
  pub force_exit : Bool
  pub written : List SessionData

-- The reasons of callback_SDP, with what was received.
pub data LwsReason : Type 0 where
  client_established client_connection_error lws_closed client_writeable lws_other : LwsReason
  client_receive : SdpContext → LwsReason

-- DATASIZE and NAMESIZE
abbrev pub message_size : ℕ
message_size = 1024

abbrev pub name_size : ℕ
name_size = 128

-- The data is written; NULL is `none`.
unfoldable pub write_session : Signal → Option SessionData → Option Signal
write_session s none = none
write_session s (some d) = some (record s { written = s.written ++ d ∷ [] })

-- if (in->state == RECV_SDP_CONTEXT)
unfoldable pub take_answer : SdpContext → SdpState → Signal → Signal
take_answer c recv_sdp_context s = record s { recvd = some c }
take_answer c send_local_sdp s = s
take_answer c send_local_candidate s = s
take_answer c req_sdp_context s = s

unfoldable pub callback_signal : LwsReason → Signal → Option Signal
callback_signal client_established s = some (record s { recvd = none })
callback_signal client_connection_error s = some s
callback_signal lws_closed s = some (record s { force_exit = true })
callback_signal client_writeable s = write_session s s.session_data
callback_signal (client_receive c) s = some (take_answer c c.state s)
callback_signal lws_other s = some s

unfoldable pub run_callbacks : List LwsReason → Signal → Option Signal
run_callbacks [] s = some s
run_callbacks (r ∷ reasons) s = do t ← callback_signal r s; run_callbacks reasons t

-- The callbacks that run while it sleeps write the data, if they do.
unfoldable pub signal_send : SessionData → List LwsReason → Signal → Option Signal
signal_send d reasons s = run_callbacks reasons (record s { session_data = some d })

-- The two calls of strcpy, into NAMESIZE and DATASIZE bytes.
unfoldable pub session_of : SdpState → Bytes → Bytes → Option SessionData
session_of state name text =
    if ltb (length name) name_size && ltb (length text) message_size
    then some (record { state = state; peer_name = name; contents = text })
    else none

unfoldable pub signal_send_sdp : Bytes → Bytes → List LwsReason → Signal → Option Signal
signal_send_sdp name sdp reasons s = do
  d ← session_of send_local_sdp name sdp
  signal_send d reasons s

unfoldable pub signal_send_candidate : Bytes → Bytes → List LwsReason → Signal → Option Signal
signal_send_candidate name candidate reasons s = do
  d ← session_of send_local_candidate name candidate
  signal_send d reasons s

-- recvd_SDP != NULL && recvd_SDP->state == RECV_SDP_CONTEXT
unfoldable pub answer_of : SdpState → SdpContext → Option SdpContext
answer_of recv_sdp_context c = some c
answer_of send_local_sdp c = none
answer_of send_local_candidate c = none
answer_of req_sdp_context c = none

unfoldable pub answered : Option SdpContext → Option SdpContext
answered none = none
answered (some c) = answer_of c.state c

-- The loop that polls, with the callbacks that run between two looks; `some (none, s)` still waits when they
-- have run.
unfoldable pub poll :
    List (List LwsReason) → Option SdpContext → Signal → Option (Option SdpContext × Signal)
poll looks (some c) s = some (some c, s)
poll [] none s = some (none, s)
poll (reasons ∷ looks) none s = do t ← run_callbacks reasons s; poll looks (answered t.recvd) t

unfoldable pub signal_req :
    Bytes → List LwsReason → List (List LwsReason) → Signal → Option (Option SdpContext × Signal)
signal_req name reasons looks s = do
  d ← session_of req_sdp_context name []
  t ← signal_send d reasons s
  poll looks (answered t.recvd) t

-- The same as getline_candidates, statement by statement.
abbrev pub signal_getline : Bytes → GetLine
signal_getline = getline_candidates

-- The two calls of strcat of on_candidate, onto DATASIZE bytes.
unfoldable pub add_candidate : (candidate_sets candidate : Bytes) → Option Bytes
add_candidate candidate_sets candidate =
    let longer = candidate_sets ++ (candidate ++ 10 ∷ []) in
    if ltb (length longer) message_size then some longer else none

-- on_candidate: the candidates so far, and the signaling.
unfoldable pub share_candidate :
    Bytes → Bytes → Bytes → List LwsReason → Signal → Option (Bytes × Signal)
share_candidate name candidate_sets candidate reasons s = do
  longer ← add_candidate candidate_sets candidate
  t ← signal_send_candidate name longer reasons s
  some (longer, t)

-- Its calls for some candidates, each with the callbacks that run while it sleeps.
unfoldable pub share_all :
    Bytes → List (Bytes × List LwsReason) → Bytes → Signal → Option (Bytes × Signal)
share_all name [] candidate_sets s = some (candidate_sets, s)
share_all name ((candidate, reasons) ∷ rest) candidate_sets s = do
  shared ← share_candidate name candidate_sets candidate reasons s
  share_all name rest shared.0 shared.1
