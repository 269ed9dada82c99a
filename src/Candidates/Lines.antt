-- ===== src/Candidates/Lines.antt =====
-- The loop of parse_candidates ends, and it finds the candidates that on_candidate has put there.
use librtcdc.Base.{
  ℕ, zero, suc, ◌<◌, ◌≤◌, ◌≡◌, ◌≢◌, refl, ap, ◌∙◌, Bool, true, Option, some, List, [], ◌∷◌, ◌++◌,
  map, append_assoc, append-nil, Bytes, All, arith, ltb, lt→ltb, Bool-cases, inl, inr, ◌==◌, length,
  length-append, ◌>>=◌,
}
use librtcdc.Sdp.Splitting.{Glib, IsGlib, IsFree}
use librtcdc.Sdp.{Agent, parse_candidates_of, parse_remote_candidate_sdp, rtcdc_parse_candidate_sdp}
use librtcdc.Candidates.{
  sdp_size, line_size, on_candidate, GetLine, end, line, overrun, put_char, up_to_newline, in_line,
  getline_candidates, Parsing, starved, faulted, parsed, and_before, parse_candidates,
}

-- A line that is read makes the string shorter.
abbrev IsShorter : ℕ → GetLine → Type 0
IsShorter n end = Unit
IsShorter n (line text rest) = length rest < n
IsShorter n overrun = Unit

put_char-IsShorter : (n c : ℕ) (g : GetLine) → IsShorter n g → IsShorter (suc n) (put_char c g)
put_char-IsShorter n c end h = tt
put_char-IsShorter n c (line text rest) h = omega arith
put_char-IsShorter n c overrun h = tt

in_line-IsShorter : (n : ℕ) (g : GetLine) → IsShorter n g → IsShorter n (in_line g)
in_line-IsShorter n end h = tt
in_line-IsShorter n (line text rest) h = elim (Bool-cases (ltb (length text) line_size)) [
  | inl fits ↦ rw fits h
  | inr long ↦ rw long tt
]
in_line-IsShorter n overrun h = tt

up_to_newline-IsShorter : (s : Bytes) → IsShorter (length s) (up_to_newline s)
up_to_newline-IsShorter [] = tt
up_to_newline-IsShorter (c ∷ s) = elim (Bool-cases (c == 10)) [
  | inl newline ↦ rw newline (omega arith)
  | inr other ↦
      rw other (put_char-IsShorter (length s) c (up_to_newline s) (up_to_newline-IsShorter s))
]

getline_candidates-IsShorter : (s : Bytes) → IsShorter (length s) (getline_candidates s)
unfolding getline_candidates
getline_candidates-IsShorter [] = tt
getline_candidates-IsShorter (c ∷ s) =
    in_line-IsShorter (suc (length s)) (up_to_newline (c ∷ s)) (up_to_newline-IsShorter (c ∷ s))

and_before-ended :
    {A : Type 0} (xs : List A) (r : Parsing (List A)) → r ≢ starved → and_before xs r ≢ starved
and_before-ended xs starved h = absurd (h refl)
and_before-ended xs faulted h = λ e. cc
and_before-ended xs (parsed ys) h = λ e. cc

-- A line that stands in front of the rest is read.
pub put_line : (l rest : Bytes) → IsFree 10 l → up_to_newline (l ++ (10 ∷ rest)) ≡ line l rest
put_line [] rest h = refl
put_line (c ∷ l) rest h = ground (arith, h.0, put_line l rest h.1)

getline-put :
    (l rest : Bytes)
    → IsFree 10 l
    → length l < line_size
    → getline_candidates (l ++ (10 ∷ rest)) ≡ line l rest
unfolding getline_candidates
getline-put [] rest h k = refl
getline-put (c ∷ l) rest h k =
    ap in_line (put_line (c ∷ l) rest h) ∙ rw (lt→ltb (length (c ∷ l)) line_size k) refl

-- The candidates as on_candidate puts them one behind another.
abbrev pub candidate_text : List Bytes → Bytes
candidate_text [] = []
candidate_text (l ∷ ls) = l ++ (10 ∷ candidate_text ls)

abbrev pub collect : Bytes → List Bytes → Option Bytes
collect buf [] = some buf
collect buf (l ∷ ls) = do longer ← on_candidate buf l; collect longer ls

collect_text :
    (buf text : Bytes) (ls : List Bytes)
    → collect buf ls ≡ some text
    → text ≡ buf ++ candidate_text ls
unfolding on_candidate
collect_text buf text [] h = ground (arith, append-nil buf)
collect_text buf text (l ∷ ls) h =
    elim (Bool-cases (ltb (length (buf ++ (l ++ 10 ∷ []))) sdp_size)) [
      | inr full ↦ ground (arith, full)
      | inl fits ↦
          let rest : collect (buf ++ (l ++ 10 ∷ [])) ls ≡ some text = ground (arith, fits) in
          collect_text (buf ++ (l ++ 10 ∷ [])) text ls rest
          ∙ append_assoc buf (l ++ 10 ∷ []) (candidate_text ls)
          ∙ ap (◌++◌ buf) (append_assoc l (10 ∷ []) (candidate_text ls))
    ]

-- What getline_candidates and g_strsplit leave whole.
pub record IsCandidate (l : Bytes) : Type 0 where
  pub one_line : IsFree 10 l
  pub no_return : IsFree 13 l
  pub short : length l < line_size
  pub some_text : l ≢ []

module _ {C : Type 0} (glib : Glib) (laws : IsGlib glib) (agent : Agent C) where
  -- The loop ends: with one round more than the string has bytes, it does not run out of fuel.
  pub parse_candidates_ends :
      (fuel : ℕ) (transport : Bool) (text : Bytes)
      → length text < fuel
      → parse_candidates glib agent fuel transport text ≢ starved
  unfolding parse_candidates
  parse_candidates_ends zero transport text h = absurd (omega arith)
  parse_candidates_ends (suc fuel) transport text h =
      let shorter = getline_candidates-IsShorter text in
      elim (getline_candidates text)
          as (λ g.
            IsShorter (length text) g
            → elim g [
              | end ↦ parsed []
              | line l rest ↦
                  and_before (rtcdc_parse_candidate_sdp glib agent transport l).1
                    (parse_candidates glib agent fuel transport rest)
              | overrun ↦ faulted
            ]
              ≢ starved) [
                | end ↦ λ k e. cc
                | line l rest ↦ λ k.
                    and_before-ended (rtcdc_parse_candidate_sdp glib agent transport l).1
                      (parse_candidates glib agent fuel transport rest)
                      (parse_candidates_ends fuel transport rest (omega arith))
                | overrun ↦ λ k e. cc
              ]
        shorter

  handed_line :
      (l : Bytes)
      → IsCandidate l
      → (rtcdc_parse_candidate_sdp glib agent true l).1
        ≡ parse_candidates_of glib agent (l ∷ []) ∷ []
  unfolding rtcdc_parse_candidate_sdp parse_remote_candidate_sdp
  handed_line l h = rw (laws.split-join 13 (10 ∷ []) (l ∷ []) (h.no_return, tt) h.some_text) refl

  parse_step :
      (fuel : ℕ) (text l rest : Bytes)
      → getline_candidates text ≡ line l rest
      → parse_candidates glib agent (suc fuel) true text
        ≡ and_before
            (rtcdc_parse_candidate_sdp glib agent true l).1
            (parse_candidates glib agent fuel true rest)
  unfolding parse_candidates
  parse_step fuel text l rest h = rw (h, parse_candidates) refl

  parse_end : (fuel : ℕ) → parse_candidates glib agent (suc fuel) true [] ≡ parsed []
  unfolding parse_candidates getline_candidates
  parse_end fuel = refl

  parse_text :
      (ls : List Bytes) (fuel : ℕ)
      → All IsCandidate ls
      → length ls < fuel
      → parse_candidates glib agent fuel true (candidate_text ls)
        ≡ parsed (map (λ l. parse_candidates_of glib agent (l ∷ [])) ls)
  parse_text [] (suc fuel) h k = parse_end fuel
  parse_text (l ∷ ls) (suc fuel) h k =
      let rest = parse_text ls fuel h.1 (omega arith) in
      let read = getline-put l (candidate_text ls) h.0.one_line h.0.short in
      parse_step fuel (candidate_text (l ∷ ls)) l (candidate_text ls) read
      ∙ rw (handed_line l h.0, rest) refl
  parse_text ls zero h k = absurd (omega arith)

  length-candidate_text : (ls : List Bytes) → length ls ≤ length (candidate_text ls)
  length-candidate_text [] = omega arith
  length-candidate_text (l ∷ ls) =
      omega (arith, length-candidate_text ls, length-append l (10 ∷ candidate_text ls))

  -- If on_candidate has collected candidates of one short line each, and the text has gone to a peer with a
  -- transport, then parse_candidates there ends without leaving its memory, and libnice is handed each of
  -- them that it reads, alone and in order.
  pub collect_parse :
      (ls : List Bytes) (text : Bytes) (fuel : ℕ)
      → All IsCandidate ls
      → collect [] ls ≡ some text
      → length text < fuel
      → parse_candidates glib agent fuel true text
        ≡ parsed (map (λ l. parse_candidates_of glib agent (l ∷ [])) ls)
  collect_parse ls text fuel h collected enough =
      let whole = collect_text [] text ls collected in
      rw whole (parse_text ls fuel h (omega (arith, length-candidate_text ls, ap length whole)))
