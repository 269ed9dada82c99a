-- ===== src/Tests/Collecting.antt =====
-- Candidates that are collected and read.
use librtcdc.Base.{
  ℕ, ◌≡◌, ◌≢◌, refl, true, none, some, List, [], ◌∷◌, Bytes, codes, arith, map, All, length, pos,
  if◌then◌else◌, ltb,
}
use librtcdc.Sdp.{Agent, parse_candidates_of}
use librtcdc.Candidates.{parse_candidates, starved, parsed, on_candidate}
use librtcdc.Candidates.Lines.{IsCandidate, collect, collect_parse, parse_candidates_ends}
use librtcdc.Tests.Describing.{glib, glib-IsGlib}

-- It takes the length of a line for its candidate.
abbrev pub measuring : Agent ℕ
measuring = record {
  parse_remote_sdp = λ text. pos 0;
  parse_candidate = λ line. if ltb (length line) 5 then none else some (length line);
  set_candidates = λ cs. pos (length cs);
}

abbrev pub two_lines : List Bytes
two_lines = codes "a=candidate:1 1 UDP" ∷ codes "end" ∷ []

abbrev pub two_text : Bytes
two_text = codes "a=candidate:1 1 UDP\nend\n"

pub two_lines-IsCandidate : All IsCandidate two_lines
two_lines-IsCandidate = (
  record {
    one_line = ground arith;
    no_return = ground arith;
    short = omega arith;
    some_text = λ e. cc;
  },
  (
    record {
      one_line = ground arith;
      no_return = ground arith;
      short = omega arith;
      some_text = λ e. cc;
    },
    tt,
  ),
)

pub two_collected : collect [] two_lines ≡ some two_text
unfolding on_candidate
two_collected = refl

collect_parse_example :
    parse_candidates glib measuring 30 true two_text
    ≡ parsed (map (λ l. parse_candidates_of glib measuring (l ∷ [])) two_lines)
collect_parse_example =
    collect_parse glib glib-IsGlib measuring two_lines two_text 30 two_lines-IsCandidate
      two_collected (omega arith)

parse_candidates_ends_example : parse_candidates glib measuring 30 true two_text ≢ starved
parse_candidates_ends_example =
    parse_candidates_ends glib glib-IsGlib measuring 30 true two_text (omega arith)
