-- ===== src/Candidates.antt =====
-- The candidates that a client and a file server send each other: src/APIs/sy_rtcdc.c.
pub mod Lines
use librtcdc.Base.{
  ℕ, zero, suc, ◌+◌, ◌<◌, Bool, true, false, Option, none, some, List, [], ◌∷◌, ◌++◌, Bytes,
  if◌then◌else◌, ltb, ◌==◌, length, ◌>>=◌, ℤ,
}
use librtcdc.Sdp.Splitting.{Glib}
use librtcdc.Sdp.{Agent, Local, Party, rtcdc_parse_candidate_sdp, rtcdc_parse_offer_sdp}

-- SDP_SIZE of src/APIs/sy_rtcdc.h
abbrev pub sdp_size : ℕ
sdp_size = 1400

-- The size of a line in getline_candidates.
abbrev pub line_size : ℕ
line_size = 128

-- The two calls of strcat, onto local_candidates; `none` overruns it.
unfoldable pub on_candidate : (candidates candidate : Bytes) → Option Bytes
on_candidate candidates candidate =
    let longer = candidates ++ (candidate ++ 10 ∷ []) in
    if ltb (length longer) sdp_size then some longer else none

-- NULL; a line, and where the string points to then; or a run that leaves the string or the line.
pub data GetLine : Type 0 where
  end : GetLine
  line : (text rest : Bytes) → GetLine
  overrun : GetLine

abbrev pub put_char : ℕ → GetLine → GetLine
put_char c end = end
put_char c (line text rest) = line (c ∷ text) rest
put_char c overrun = overrun

-- The loop over str_iter, up to "\n".
abbrev pub up_to_newline : Bytes → GetLine
up_to_newline [] = overrun
up_to_newline (c ∷ s) = let more = up_to_newline s in if c == 10 then line [] s else put_char c more

-- The line has room for its characters and the NUL behind them.
abbrev pub in_line : GetLine → GetLine
in_line end = end
in_line (line text rest) = if ltb (length text) line_size then line text rest else overrun
in_line overrun = overrun

unfoldable pub getline_candidates : Bytes → GetLine
getline_candidates [] = end
getline_candidates (c ∷ s) = in_line (up_to_newline (c ∷ s))

-- The loop has not ended with the fuel; it has left its memory; or it has ended.
pub data Parsing (A : Type 0) : Type 0 where
  starved : Parsing A
  faulted : Parsing A
  parsed : A → Parsing A

abbrev pub and_before : {A : Type 0} → List A → Parsing (List A) → Parsing (List A)
and_before xs starved = starved
and_before xs faulted = faulted
and_before xs (parsed ys) = parsed (xs ++ ys)

module _ {C : Type 0} (glib : Glib) (agent : Agent C) where
  -- What libnice is handed by the calls of the loop.
  unfoldable pub parse_candidates : (fuel : ℕ) (transport : Bool) → Bytes → Parsing (List (List C))
  parse_candidates zero transport text = starved
  parse_candidates (suc fuel) transport text = elim (getline_candidates text) [
    | end ↦ parsed []
    | line l rest ↦
        and_before (rtcdc_parse_candidate_sdp glib agent transport l).1
          (parse_candidates fuel transport rest)
    | overrun ↦ faulted
  ]

-- Of a loop that has ended.
abbrev pub when_parsed : {A : Type 0} → Parsing A → Option A
when_parsed starved = none
when_parsed faulted = none
when_parsed (parsed a) = some a

module _ {C : Type 0} (glib : Glib) (agent : Agent C) where
  -- rtcdc_parse_offer_sdp and then parse_candidates, with fuel for the text: the result of the first, and
  -- what libnice is handed by the second.
  unfoldable pub hear :
      Local → Option Bytes → (candidates : Bytes) → Party → Option (ℤ × List (List C) × Party)
  hear l sdp candidates p = do
    heard ← rtcdc_parse_offer_sdp glib agent l sdp p
    lists ←
        when_parsed
          (parse_candidates glib agent (suc (length candidates)) heard.1.link.transport candidates)
    some (heard.0, lists, heard.1)
