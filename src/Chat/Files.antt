-- ===== src/Chat/Files.antt =====
-- The candidates that one chat program leaves in its file, and the other reads.
use librtcdc.Base.{
  ℕ, zero, suc, ◌<◌, ◌≤◌, ◌≡◌, ◌≢◌, refl, ap, sym, ◌∙◌, Bool, true, none, some, List, [], ◌∷◌, ◌++◌,
  map, append_assoc, Bytes, All, HasNoNul, arith, length, length-append, pos, bytes_eq_refl, lt→ltb,
  append-nil,
}
use librtcdc.Transfer.Lines.{strlen, take, take-strlen}
use librtcdc.Transfer.{store}
use librtcdc.Sdp.Splitting.{Glib, IsGlib, IsFree}
use librtcdc.Sdp.{Agent, parse_candidates_of, parse_remote_candidate_sdp, rtcdc_parse_candidate_sdp}
use librtcdc.Candidates.{line, up_to_newline}
use librtcdc.Candidates.Lines.{put_line}
use librtcdc.Chat.{
  Disk, Ended, goes, then_go, abs_file_path, candidates_file, write_candidate, clear_candidates,
  get_line, with_newline, read_candidates, get_remote_candidate_file,
}

-- A candidate in one line that has room for "\r\n".
pub record IsChatLine (l : Bytes) : Type 0 where
  pub no_newline : IsFree 10 l
  pub no_return : IsFree 13 l
  pub no_nul : HasNoNul l
  pub no_eof : IsFree 255 l
  pub short : length l < 254
  pub some_text : l ≢ []

-- The file, as on_candidate writes it.
abbrev pub file_text : List Bytes → Bytes
file_text [] = []
file_text (l ∷ ls) = (l ++ (13 ∷ 10 ∷ [])) ++ file_text ls

abbrev pub write_all : Bytes → (Bytes → Bool) → Bytes → List Bytes → Disk → Ended Disk
write_all dir writable name [] disk = goes disk
write_all dir writable name (l ∷ ls) disk =
    then_go (write_candidate dir writable name l disk) (write_all dir writable name ls)

IsFree-snoc : (c d : ℕ) (l : Bytes) → d ≢ c → IsFree c l → IsFree c (l ++ d ∷ [])
IsFree-snoc c d [] h k = (h, tt)
IsFree-snoc c d (e ∷ l) h k = (k.0, IsFree-snoc c d l h k.1)

not_eof : (c : ℕ) (s : Bytes) → c ≢ 255 → get_line (c ∷ s) ≡ with_newline (up_to_newline (c ∷ s))
unfolding get_line
not_eof c s h = ground (arith, h)

not_empty : (l s : Bytes) (c : ℕ) → l ++ (c ∷ s) ≢ []
not_empty [] s c e = cc
not_empty (d ∷ l) s c e = cc

-- The line that is read.
get_line-put :
    (l rest : Bytes)
    → IsChatLine l
    → get_line ((l ++ (13 ∷ 10 ∷ [])) ++ rest) ≡ line ((l ++ 13 ∷ []) ++ 10 ∷ []) rest
unfolding get_line
get_line-put [] rest h = absurd (h.some_text refl)
get_line-put (c ∷ l) rest h =
    let read =
      put_line ((c ∷ l) ++ 13 ∷ []) rest (IsFree-snoc 10 13 (c ∷ l) (omega arith) h.no_newline) in
    let long = length-append (c ∷ l) (13 ∷ []) in
    let room = lt→ltb (suc (length ((c ∷ l) ++ 13 ∷ []))) 256 (omega (arith, h.short, long)) in
    let whole : ((c ∷ l) ++ (13 ∷ 10 ∷ [])) ++ rest ≡ ((c ∷ l) ++ 13 ∷ []) ++ (10 ∷ rest) =
      append_assoc (c ∷ l) (13 ∷ 10 ∷ []) rest ∙ sym (append_assoc (c ∷ l) (13 ∷ []) (10 ∷ rest)) in
    not_eof c _ h.no_eof.0 ∙ ap with_newline (ap up_to_newline whole ∙ read) ∙ rw room refl

module _ {C : Type 0} (glib : Glib) (laws : IsGlib glib) (agent : Agent C) where
  -- libnice takes the candidate of the line, and makes none of an empty line.
  pub record IsTaken (l : Bytes) : Type 0 where
    pub count : ℕ
    pub accepted : agent.set_candidates (parse_candidates_of glib agent (l ∷ [])) ≡ pos (suc count)

  c_line :
      (l : Bytes)
      → IsChatLine l
      → take (strlen ((l ++ 13 ∷ []) ++ 10 ∷ [])) ((l ++ 13 ∷ []) ++ 10 ∷ [])
        ≡ (l ++ 13 ∷ []) ++ 10 ∷ []
  c_line l h =
      take-strlen _
        (IsFree-snoc 0 10 (l ++ 13 ∷ []) (omega arith) (IsFree-snoc 0 13 l (omega arith) h.no_nul))

  blank_last :
      (l : Bytes)
      → agent.parse_candidate [] ≡ none
      → parse_candidates_of glib agent (l ∷ [] ∷ []) ≡ parse_candidates_of glib agent (l ∷ [])
  unfolding parse_candidates_of
  blank_last l blank =
      let none_of : parse_candidates_of glib agent ([] ∷ []) ≡ [] =
        rw (parse_candidates_of, blank) refl in
      ap (λ (r : List C). elim (agent.parse_candidate l) [ none ↦ r | some c ↦ c ∷ r ]) none_of

  taken_line :
      (l : Bytes)
      → IsChatLine l
      → agent.parse_candidate [] ≡ none
      → rtcdc_parse_candidate_sdp glib agent true ((l ++ 13 ∷ []) ++ 10 ∷ []) ≡ (
        agent.set_candidates (parse_candidates_of glib agent (l ∷ [])),
        parse_candidates_of glib agent (l ∷ []) ∷ [],
      )
  unfolding rtcdc_parse_candidate_sdp parse_remote_candidate_sdp
  taken_line l h blank =
      let apart : glib.split ((l ++ 13 ∷ []) ++ 10 ∷ []) (13 ∷ 10 ∷ []) ≡ l ∷ [] ∷ [] =
        ap (λ t. glib.split t (13 ∷ 10 ∷ [])) (append_assoc l (13 ∷ []) (10 ∷ []))
        ∙ laws.split-join 13 (10 ∷ []) (l ∷ [] ∷ []) (h.no_return, (tt, tt))
            (not_empty l (10 ∷ []) 13) in
      rw (apart, blank_last l blank) refl

  read_line :
      (fuel n : ℕ) (text l rest : Bytes) (handed : List (List C))
      → get_line text ≡ line l rest
      → rtcdc_parse_candidate_sdp glib agent true (take (strlen l) l) ≡ (pos (suc n), handed)
      → read_candidates glib agent (suc fuel) true text
        ≡ then_go (read_candidates glib agent fuel true rest) (λ later. goes (handed ++ later))
  unfolding read_candidates
  read_line fuel n text l rest handed h taken = rw (h, taken, read_candidates) refl

  read_step :
      (fuel : ℕ) (l rest : Bytes)
      → IsChatLine l
      → IsTaken l
      → agent.parse_candidate [] ≡ none
      → read_candidates glib agent (suc fuel) true ((l ++ (13 ∷ 10 ∷ [])) ++ rest)
        ≡ then_go
            (read_candidates glib agent fuel true rest)
            (λ later. goes (parse_candidates_of glib agent (l ∷ []) ∷ later))
  read_step fuel l rest h taken blank =
      let whole =
        taken_line l h blank
        ∙ ap (λ n. (n, parse_candidates_of glib agent (l ∷ []) ∷ [])) taken.accepted in
      read_line fuel taken.count ((l ++ (13 ∷ 10 ∷ [])) ++ rest) ((l ++ 13 ∷ []) ++ 10 ∷ []) rest
        (parse_candidates_of glib agent (l ∷ []) ∷ []) (get_line-put l rest h)
        (rw (c_line l h) whole)

  read_all :
      (fuel : ℕ) (ls : List Bytes)
      → All IsChatLine ls
      → All IsTaken ls
      → agent.parse_candidate [] ≡ none
      → length ls < fuel
      → read_candidates glib agent fuel true (file_text ls)
        ≡ goes (map (λ l. parse_candidates_of glib agent (l ∷ [])) ls)
  unfolding read_candidates get_line
  read_all zero ls h taken blank few = absurd (omega arith)
  read_all (suc fuel) [] h taken blank few = refl
  read_all (suc fuel) (l ∷ ls) h taken blank few =
      let rest = read_all fuel ls h.1 taken.1 blank (omega arith) in
      read_step fuel l (file_text ls) h.0 taken.0 blank ∙ rw rest refl

length-file_text : (ls : List Bytes) → length ls ≤ length (file_text ls)
length-file_text [] = omega arith
length-file_text (l ∷ ls) = omega (
  arith,
  length-file_text ls,
  length-append (l ++ (13 ∷ 10 ∷ [])) (file_text ls),
  length-append l (13 ∷ 10 ∷ []),
)

-- All candidates that are written one after another stand in the file.
write_all_text :
    (dir : Bytes) (writable : Bytes → Bool) (name path before : Bytes) (ls : List Bytes)
    (disk : Disk)
    → abs_file_path dir name candidates_file ≡ goes path
    → writable path ≡ true
    → disk path ≡ some before
    → (after : Disk) × (write_all dir writable name ls disk ≡ goes after)
      × (after path ≡ some (before ++ file_text ls))
unfolding write_candidate store
write_all_text dir writable name path before [] disk there may old =
    (disk, refl, old ∙ ap some (sym (append-nil before)))
write_all_text dir writable name path before (l ∷ ls) disk there may old =
    let text = before ++ (l ++ (13 ∷ 10 ∷ [])) in
    let now = store path text disk in
    let same = bytes_eq_refl path in
    let written : write_candidate dir writable name l disk ≡ goes now = rw (there, may, old) refl in
    let (after, rest, holds) =
      write_all_text dir writable name path text ls now there may (rw same refl) in
    (
      after,
      rw written rest,
      holds ∙ ap some (append_assoc before (l ++ (13 ∷ 10 ∷ [])) (file_text ls)),
    )

-- If candidates of one short line each are written into a file that was cleared, all in the directory and under
-- the name of one program, and libnice takes each and makes nothing of an empty line, then
-- get_remote_candidate_file of the other program, which has a transport, reads them all without leaving its
-- memory or calling exit, and libnice is handed each alone and in order.
pub candidates_left :
    {C : Type 0} (glib : Glib) (laws : IsGlib glib) (agent : Agent C) (dir name path : Bytes)
    (writable : Bytes → Bool) (ls : List Bytes) (disk : Disk)
    → abs_file_path dir name candidates_file ≡ goes path
    → writable path ≡ true
    → All IsChatLine ls
    → All (IsTaken glib laws agent) ls
    → agent.parse_candidate [] ≡ none
    → (after : Disk) × (then_go
          (clear_candidates dir writable name disk)
          (write_all dir writable name ls)
        ≡ goes after)
      × (get_remote_candidate_file glib agent dir name after true
          ≡ goes (map (λ l. parse_candidates_of glib agent (l ∷ [])) ls))
unfolding get_remote_candidate_file clear_candidates store
candidates_left glib laws agent dir name path writable ls disk there may lines taken blank =
    let same = bytes_eq_refl path in
    let (after, written, holds) =
      write_all_text dir writable name path [] ls (store path [] disk) there may (rw same refl) in
    let read =
      read_all glib laws agent (suc (length (file_text ls))) ls lines taken blank
        (omega (arith, length-file_text ls)) in
    (after, rw (there, may) written, rw (there, holds) read)
