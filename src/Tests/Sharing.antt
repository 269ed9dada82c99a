-- ===== src/Tests/Sharing.antt =====
-- A file of three bytes, and two candidates that are shared.
use librtcdc.Base.{
  ◌≡◌, refl, true, false, none, some, List, [], ◌∷◌, ◌++◌, Bytes, codes, arith, map, ◌%◌, ◌==◌,
  if◌then◌else◌,
}
use librtcdc.Sdp.{parse_candidates_of}
use librtcdc.Candidates.{parse_candidates, parsed}
use librtcdc.Transfer.{Receiver, opened, closed, store}
use librtcdc.FileTrans.{SctpPacket, block_size, on_open_file, receive_blocks}
use librtcdc.FileTrans.Blocks.{file_arrives}
use librtcdc.FileTrans.Signal.{
  SdpContext, recv_sdp_context, Signal, LwsReason, client_writeable, callback_signal, run_callbacks,
  signal_send, session_of, signal_send_candidate, signal_req, add_candidate, share_candidate,
  share_all, write_session,
}
use librtcdc.FileTrans.Sharing.{candidates_of, candidates_shared, request_stale}
use librtcdc.Tests.Describing.{glib, glib-IsGlib}
use librtcdc.Tests.Collecting.{measuring, two_lines, two_text, two_lines-IsCandidate}
use librtcdc.Tests.Copying.{anywhere, nothing_yet}

file_arrives_example :
    (packets : List SctpPacket) × (q : Receiver) × (on_open_file [] (codes "name") (codes "abc")
      ≡ some packets)
    × (receive_blocks anywhere [] (codes "in/") nothing_yet packets ≡ some q)
    × (q.disk ≡ store (codes "in/name") (codes "abc") nothing_yet.disk)
    × (q.stream ≡ (if 3 % block_size == 0 then opened (codes "in/name") else closed))
file_arrives_example =
    file_arrives anywhere (codes "in/") (codes "name") (codes "abc") nothing_yet (λ e. cc)
      (ground arith) (ground arith) (omega arith) (omega arith) refl

abbrev pub calm : Signal
calm = record { session_data = none; recvd = none; force_exit = false; written = [] }

abbrev shared : List (Bytes × List LwsReason)
shared = (codes "end", []) ∷ []

-- The first message is written meanwhile, the second waits.
abbrev waiting : Signal
waiting = record calm {
  session_data = some (candidates_of (codes "Anna") two_text);
  written = candidates_of (codes "Anna") (codes "a=candidate:1 1 UDP\n") ∷ [];
}

all_shared :
    share_all (codes "Anna") ((codes "a=candidate:1 1 UDP", client_writeable ∷ []) ∷ shared) [] calm
    ≡ some (two_text, waiting)
unfolding share_all share_candidate add_candidate signal_send_candidate session_of signal_send
    run_callbacks callback_signal write_session
all_shared = refl

candidates_shared_example :
    (callback_signal client_writeable waiting
      ≡ some (record waiting {
        written = waiting.written ++ candidates_of (codes "Anna") two_text ∷ [];
      }))
    × (parse_candidates glib measuring 30 true two_text
        ≡ parsed (map (λ l. parse_candidates_of glib measuring (l ∷ [])) two_lines))
candidates_shared_example =
    candidates_shared glib glib-IsGlib measuring (codes "Anna") two_text
      (codes "a=candidate:1 1 UDP") (client_writeable ∷ []) shared calm waiting 30 all_shared
      two_lines-IsCandidate (omega arith)

abbrev of_bert : SdpContext
of_bert = record {
  peer_name = codes "Bert";
  sdp = codes "v=0";
  candidate = two_text;
  state = recv_sdp_context;
}

request_stale_example :
    (t : Signal) × (signal_req
        (codes "Carl")
        (client_writeable ∷ [])
        []
        (record calm { recvd = some of_bert })
      ≡ some (some of_bert, t))
request_stale_example =
    request_stale (codes "Carl") (client_writeable ∷ []) [] (record calm { recvd = some of_bert })
      of_bert refl refl (omega arith) (tt, tt)
