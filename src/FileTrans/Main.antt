-- ===== src/FileTrans/Main.antt =====
-- main of examples/file_trans/send_file.c and of recv_file.c, which do the same until the event loop: the
-- description is sent to the signaling server; if the user wants it, the other peer is asked for and heard,
-- and the description is made and sent again. The callbacks that run meanwhile are arguments.
use librtcdc.Base.{suc, Option, none, some, List, Bytes, length, ◌>>=◌, ℤ}
use librtcdc.Sdp.Splitting.{Glib}
use librtcdc.Sdp.{Local, Agent, Party, rtcdc_generate_offer_sdp, rtcdc_parse_offer_sdp}
use librtcdc.Candidates.{parse_candidates, when_parsed}
use librtcdc.FileTrans.Signal.{SdpContext, Signal, LwsReason, signal_send_sdp, signal_req}

-- The peer and its signaling before the event loop, with the result of rtcdc_parse_offer_sdp and the
-- candidates that libnice was handed.
pub record Met (C : Type 0) : Type 0 where
  pub result : ℤ
  pub handed : List (List C)
  pub party : Party
  pub signal : Signal

-- The description is made and sent; strcpy from NULL is `none`.
unfoldable pub announce :
    Glib → Local → (name : Bytes) → List LwsReason → Party → Signal → Option (Party × Signal)
announce glib l name reasons p s = do
  made ← rtcdc_generate_offer_sdp glib l p
  text ← made.0
  t ← signal_send_sdp name text reasons s
  some (made.1, t)

module _ {C : Type 0} (glib : Glib) (agent : Agent C) where
  -- The description, and the loop over the candidates.
  unfoldable pub hear_context : Local → SdpContext → Party → Option ((ℤ × Party) × List (List C))
  hear_context l c p = do
    heard ← rtcdc_parse_offer_sdp glib agent l (some c.sdp) p
    handed ←
        when_parsed (
          parse_candidates glib agent (suc (length c.candidate)) heard.1.link.transport c.candidate)
    some (heard, handed)

  -- From the answer of the signaling server on; `some none` still waits for it.
  unfoldable pub go_on :
      Local
      → (name : Bytes) → List LwsReason
      → Party
      → Option SdpContext × Signal
      → Option (Option (Met C))
  go_on l name reasons p (none, s) = some none
  go_on l name reasons p (some c, s) = do
    heard ← hear_context l c p
    sent ← announce glib l name reasons heard.0.1 s
    some (some (record { result = heard.0.0; handed = heard.1; party = sent.0; signal = sent.1 }))

  -- What follows when 'y' has been read.
  unfoldable pub meet :
      Local
      → (name remote : Bytes) → (before : List LwsReason) → List (List LwsReason)
      → (after : List LwsReason) → Party
      → Signal
      → Option (Option (Met C))
  meet l name remote before looks after p s = do
    asked ← signal_req remote before looks s
    go_on l name after p asked
