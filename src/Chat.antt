-- ===== src/Chat.antt =====
-- The examples examples/chat: two programs that leave their descriptions and candidates for each other in
-- files. The definitions follow threads/chat_threads.c; queue/chat_queue.c does much the same in other files. The
-- directory is `dir`, a file that fopen can write is `writable`, and EOF is the char 255.
pub mod Files
pub mod Clearing
use librtcdc.Base.{
  ℕ, zero, suc, Bool, Option, none, some, List, [], ◌∷◌, ◌++◌, Bytes, codes, if◌then◌else◌, ltb,
  ◌==◌, length, ℤ, pos, negsuc,
}
use librtcdc.Transfer.{store}
use librtcdc.Transfer.Lines.{strlen, take}
use librtcdc.Sdp.Splitting.{Glib}
use librtcdc.Sdp.{
  Local, Agent, Party, rtcdc_generate_offer_sdp, rtcdc_parse_offer_sdp, rtcdc_parse_candidate_sdp,
}
use librtcdc.Candidates.{GetLine, end, line, overrun, up_to_newline}

abbrev pub Disk : Type 0
Disk = Bytes → Option Bytes

-- A function of the programs: its fuel ran out; it has left its memory; it has called exit(1); or it has
-- returned.
pub data Ended (A : Type 0) : Type 0 where
  starved faulted exited : Ended A
  goes : A → Ended A

abbrev pub then_go : {A B : Type 0} → Ended A → (A → Ended B) → Ended B
then_go starved next = starved
then_go faulted next = faulted
then_go exited next = exited
then_go (goes a) next = next a

abbrev pub or_fault : {A : Type 0} → Option A → Ended A
or_fault none = faulted
or_fault (some a) = goes a

-- abs_file_path, in 256 bytes
unfoldable pub abs_file_path : (dir name file : Bytes) → Ended Bytes
abs_file_path dir name file =
    let path = dir ++ (name ++ file) in if ltb (length path) 256 then goes path else faulted

-- What a file holds that is opened to append to it.
abbrev pub old_text : Option Bytes → Bytes
old_text none = []
old_text (some text) = text

abbrev pub candidates_file : Bytes
candidates_file = codes "/local_candidates"

abbrev pub sdp_file : Bytes
sdp_file = codes "/local_sdp"

-- A C string, up to its NUL.
abbrev pub c_string : Bytes → Bytes
c_string text = take (strlen text) text

module _ (dir : Bytes) (writable : Bytes → Bool) where
  -- on_candidate
  unfoldable pub write_candidate : (name candidate : Bytes) → Disk → Ended Disk
  write_candidate name candidate disk = then_go (abs_file_path dir name candidates_file) (λ path.
      if writable path
      then goes (store path (old_text (disk path) ++ (candidate ++ (13 ∷ 10 ∷ []))) disk)
      else exited)

  -- The content of the file is cleared.
  unfoldable pub clear_candidates : (name : Bytes) → Disk → Ended Disk
  clear_candidates name disk =
      then_go (abs_file_path dir name candidates_file)
        (λ path. if writable path then goes (store path [] disk) else exited)

  -- fprintf, which must not get NULL.
  abbrev pub put_sdp : Bytes → Disk → Option Bytes × Party → Ended (Party × Disk)
  put_sdp path disk (none, p) = faulted
  put_sdp path disk (some text, p) = goes (p, store path text disk)

  unfoldable pub gen_local_sdp_file :
      Glib → Local → (name : Bytes) → Party → Disk → Ended (Party × Disk)
  gen_local_sdp_file glib l name p disk = then_go (abs_file_path dir name sdp_file) (λ path.
      if writable path
      then then_go (or_fault (rtcdc_generate_offer_sdp glib l p)) (put_sdp path disk)
      else exited)

  -- main until it asks the user.
  unfoldable pub begin_chat : Glib → Local → (own : Bytes) → Party → Disk → Ended (Party × Disk)
  begin_chat glib l own p disk =
      then_go (clear_candidates own disk) (gen_local_sdp_file glib l own p)

-- get_line, with the newline at its end, in 256 bytes with the NUL behind it.
abbrev pub with_newline : GetLine → GetLine
with_newline end = end
with_newline (line text rest) =
    if ltb (suc (length text)) 256 then line (text ++ 10 ∷ []) rest else overrun
with_newline overrun = overrun

unfoldable pub get_line : Bytes → GetLine
get_line [] = end
get_line (c ∷ s) = if c == 255 then end else with_newline (up_to_newline (c ∷ s))

-- A file that is opened to be read.
abbrev pub or_exit : Option Bytes → Ended Bytes
or_exit none = exited
or_exit (some text) = goes text

module _ {C : Type 0} (glib : Glib) (agent : Agent C) where
  -- res >= 0
  abbrev pub unless_negative : ℤ × Party → Ended Party
  unless_negative (pos n, p) = goes p
  unless_negative (negsuc n, p) = exited

  unfoldable pub get_remote_sdp_file :
      (dir : Bytes) → Local → (name : Bytes) → Disk → Party → Ended Party
  get_remote_sdp_file dir l name disk p = then_go (abs_file_path dir name sdp_file) (λ path.
      then_go (or_exit (disk path)) (λ text.
        then_go (or_fault (rtcdc_parse_offer_sdp glib agent l (some (c_string text)) p))
          unless_negative))

  -- res > 0
  abbrev pub if_positive : ℤ × List (List C) → Ended (List (List C)) → Ended (List (List C))
  if_positive (pos zero, handed) rest = exited
  if_positive (pos (suc n), handed) rest = then_go rest (λ later. goes (handed ++ later))
  if_positive (negsuc n, handed) rest = exited

  -- What libnice is handed by the calls of the loop.
  unfoldable pub read_candidates : (fuel : ℕ) (transport : Bool) → Bytes → Ended (List (List C))
  read_candidates zero transport text = starved
  read_candidates (suc fuel) transport text = elim (get_line text) [
    | end ↦ goes []
    | line l rest ↦
        if_positive (rtcdc_parse_candidate_sdp glib agent transport (c_string l))
          (read_candidates fuel transport rest)
    | overrun ↦ faulted
  ]

  unfoldable pub get_remote_candidate_file :
      (dir name : Bytes) → Disk → (transport : Bool) → Ended (List (List C))
  get_remote_candidate_file dir name disk transport =
      then_go (abs_file_path dir name candidates_file) (λ path.
        then_go (or_exit (disk path)) (λ text. read_candidates (suc (length text)) transport text))

  -- main when 'y' has been read: the peer, the files, and what libnice was handed.
  unfoldable pub connect_chat :
      (dir : Bytes)
      → (writable : Bytes → Bool) → Local
      → (own other : Bytes) → Party
      → Disk
      → Ended ((Party × Disk) × List (List C))
  connect_chat dir writable l own other p disk =
      then_go (get_remote_sdp_file dir l other disk p) (λ q.
        then_go (clear_candidates dir writable own disk) (λ cleared.
          then_go (get_remote_candidate_file dir other cleared q.link.transport) (λ handed.
            then_go (gen_local_sdp_file dir writable glib l own q cleared)
              (λ made. goes (made, handed)))))
