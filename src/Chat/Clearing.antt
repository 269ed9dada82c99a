-- ===== src/Chat/Clearing.antt =====
-- The file of the candidates of a chat program that has gone on to its threads.
use librtcdc.Base.{
  ◌≡◌, refl, ap, sym, ◌∙◌, Bool, true, false, Option, none, some, List, [], ◌∷◌, ◌++◌, Bytes, arith,
  if◌then◌else◌, bytes_eq, bytes_eq_refl,
}
use librtcdc.Transfer.{store}
use librtcdc.Sdp.Splitting.{Glib}
use librtcdc.Sdp.{Local, Agent, Party, rtcdc_generate_offer_sdp}
use librtcdc.Chat.{
  Disk, Ended, starved, faulted, exited, goes, then_go, or_fault, abs_file_path, candidates_file,
  sdp_file, clear_candidates, gen_local_sdp_file, get_line, get_remote_sdp_file, read_candidates,
  get_remote_candidate_file, connect_chat, put_sdp,
}

then_go_goes :
    {A B : Type 0} (x : Ended A) (f : A → Ended B) (b : B)
    → then_go x f ≡ goes b
    → (a : A) × (x ≡ goes a) × (f a ≡ goes b)
then_go_goes starved f b e = cc
then_go_goes faulted f b e = cc
then_go_goes exited f b e = cc
then_go_goes (goes a) f b e = (a, refl, e)

bytes_eq-prefix : (p a b : Bytes) → bytes_eq (p ++ a) (p ++ b) ≡ bytes_eq a b
bytes_eq-prefix [] a b = refl
bytes_eq-prefix (c ∷ p) a b = ground (arith, bytes_eq-prefix p a b)

-- The path of a name, where it fits.
path_is :
    (dir name file path : Bytes)
    → abs_file_path dir name file ≡ goes path
    → path ≡ dir ++ (name ++ file)
unfolding abs_file_path
path_is dir name file path e = ground arith

goes_inj : {A : Type 0} (a b : A) → goes a ≡ goes b → a ≡ b
goes_inj a b e = cc

unless_exited :
    {A : Type 0} (b : Bool) (x : Ended A) (a : A) → (if b then x else exited) ≡ goes a → x ≡ goes a
unless_exited true x a e = e
unless_exited false x a e = cc

put_sdp_is :
    (dir : Bytes) (writable : Bytes → Bool) (path : Bytes) (disk : Disk) (m : Option Bytes × Party)
    (r : Party × Disk)
    → put_sdp dir writable path disk m ≡ goes r
    → (text : Bytes) × (r.1 ≡ store path text disk)
put_sdp_is dir writable path disk (none, p) r e = cc
put_sdp_is dir writable path disk (some text, p) r e =
    (text, ap (λ (t : Party × Disk). t.1) (sym (goes_inj _ _ e)))

other_file :
    (dir name : Bytes)
    → bytes_eq (dir ++ (name ++ sdp_file)) (dir ++ (name ++ candidates_file)) ≡ false
other_file dir name =
    bytes_eq-prefix dir (name ++ sdp_file) (name ++ candidates_file)
    ∙ bytes_eq-prefix name sdp_file candidates_file

cleared_is :
    (dir name : Bytes) (writable : Bytes → Bool) (disk after : Disk)
    → clear_candidates dir writable name disk ≡ goes after
    → (abs_file_path dir name candidates_file ≡ goes (dir ++ (name ++ candidates_file)))
      × (after (dir ++ (name ++ candidates_file)) ≡ some [])
unfolding clear_candidates store
cleared_is dir name writable disk after e =
    let (path, there, done) = then_go_goes (abs_file_path dir name candidates_file) _ after e in
    let is = path_is dir name candidates_file path there in
    let stored = goes_inj _ _ (unless_exited (writable path) _ after done) in
    let same = bytes_eq_refl (dir ++ (name ++ candidates_file)) in
    (
      there ∙ ap goes is,
      ap (λ (d : Disk). d (dir ++ (name ++ candidates_file))) (sym stored)
          ∙ ap (λ t. store t [] disk (dir ++ (name ++ candidates_file))) is
          ∙ rw same refl,
    )

generated_is :
    (glib : Glib) (dir name : Bytes) (writable : Bytes → Bool) (l : Local) (p q : Party)
    (disk after : Disk)
    → gen_local_sdp_file dir writable glib l name p disk ≡ goes (q, after)
    → after (dir ++ (name ++ candidates_file)) ≡ disk (dir ++ (name ++ candidates_file))
unfolding gen_local_sdp_file store
generated_is glib dir name writable l p q disk after e =
    let (path, there, done) = then_go_goes (abs_file_path dir name sdp_file) _ (q, after) e in
    let is = path_is dir name sdp_file path there in
    let ran = unless_exited (writable path) _ (q, after) done in
    let (m, _, put) =
      then_go_goes (or_fault (rtcdc_generate_offer_sdp glib l p)) _ (q, after) ran in
    let (text, stored) = put_sdp_is dir writable path disk m (q, after) put in
    let apart = other_file dir name in
    ap (λ (d : Disk). d (dir ++ (name ++ candidates_file))) stored
    ∙ ap (λ t. store t text disk (dir ++ (name ++ candidates_file))) is
    ∙ rw apart refl

-- Once a program has gone on to its threads, whoever reads its candidates finds none: it has cleared its own
-- file, though the other may not have read it.
pub candidates_gone :
    {C : Type 0} (glib : Glib) (agent : Agent C) (dir own other : Bytes) (writable : Bytes → Bool)
    (l : Local) (p q : Party) (disk after : Disk) (handed : List (List C)) (transport : Bool)
    → connect_chat glib agent dir writable l own other p disk ≡ goes ((q, after), handed)
    → get_remote_candidate_file glib agent dir own after transport ≡ goes []
unfolding connect_chat get_remote_candidate_file
candidates_gone {C = C} glib agent dir own other writable l p q disk after handed transport e =
    let (heard, _, e1) = then_go_goes (get_remote_sdp_file glib agent dir l other disk p) _ _ e in
    let (cleared, clear, e2) = then_go_goes (clear_candidates dir writable own disk) _ _ e1 in
    let (got, _, e3) =
      then_go_goes (get_remote_candidate_file glib agent dir other cleared heard.link.transport) _ _
        e2 in
    let (made, again, e4) =
      then_go_goes (gen_local_sdp_file dir writable glib l own heard cleared) _ _ e3 in
    let done = goes_inj _ _ e4 in
    let (there, empty) = cleared_is dir own writable disk cleared clear in
    let kept = generated_is glib dir own writable l heard made.0 cleared made.1 again ∙ empty in
    let last =
      ap (λ (t : (Party × Disk) × List (List C)). t.0.1 (dir ++ (own ++ candidates_file)))
        (sym done)
      ∙ kept in
    rw (there, last, get_remote_candidate_file) (unfold read_candidates get_line in refl)
