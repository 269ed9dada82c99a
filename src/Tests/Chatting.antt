-- ===== src/Tests/Chatting.antt =====
-- Two candidates in the file of a chat program.
use librtcdc.Base.{◌≡◌, refl, true, none, List, [], ◌∷◌, Bytes, All, codes, arith, map}
use librtcdc.Sdp.{parse_candidates_of}
use librtcdc.Chat.{Disk, goes, then_go, abs_file_path, clear_candidates, get_remote_candidate_file}
use librtcdc.Chat.Files.{IsChatLine, IsTaken, write_all, candidates_left}
use librtcdc.Tests.Collecting.{measuring}
use librtcdc.Tests.Copying.{anywhere}
use librtcdc.Tests.Describing.{glib, glib-IsGlib}

abbrev empty : Disk
empty = λ path. none

abbrev left_lines : List Bytes
left_lines = codes "a=candidate:1" ∷ codes "a=candidate:2 2" ∷ []

left_lines-IsChatLine : All IsChatLine left_lines
left_lines-IsChatLine = (
  record {
    no_newline = ground arith;
    no_return = ground arith;
    no_nul = ground arith;
    no_eof = ground arith;
    short = omega arith;
    some_text = λ e. cc;
  },
  (
    record {
      no_newline = ground arith;
      no_return = ground arith;
      no_nul = ground arith;
      no_eof = ground arith;
      short = omega arith;
      some_text = λ e. cc;
    },
    tt,
  ),
)

left_lines-IsTaken : All (IsTaken glib glib-IsGlib measuring) left_lines
unfolding parse_candidates_of
left_lines-IsTaken =
    (record { count = 0; accepted = refl }, (record { count = 0; accepted = refl }, tt))

candidates_left_example :
    (after : Disk) × (then_go
        (clear_candidates (codes "/home/") anywhere (codes "s1") empty)
        (write_all (codes "/home/") anywhere (codes "s1") left_lines)
      ≡ goes after)
    × (get_remote_candidate_file glib measuring (codes "/home/") (codes "s1") after true
        ≡ goes (map (λ l. parse_candidates_of glib measuring (l ∷ [])) left_lines))
unfolding abs_file_path parse_candidates_of
candidates_left_example =
    candidates_left glib glib-IsGlib measuring (codes "/home/") (codes "s1")
      (codes "/home/s1/local_candidates") anywhere left_lines empty refl refl left_lines-IsChatLine
      left_lines-IsTaken refl
