-- ===== src/Tests/Copying.antt =====
-- A transfer of three files, of which the receiver wants two.
use librtcdc.Base.{
  ◌<◌, ◌≡◌, refl, Bool, true, none, some, List, [], ◌∷◌, ◌++◌, Option, Bytes, HasNoNul, All, codes,
  arith, length, pos, negsuc,
}
use librtcdc.Transfer.{
  FileStatus, clean, fs_lack, dirty, DiffInfo, Receiver, null, send_line, send_lines, send_file,
  receive_all,
}
use librtcdc.Transfer.Lines.{read_line, fgets, strlen}
use librtcdc.Transfer.Interleaving.{interleaved_line}
use librtcdc.Transfer.Whole.{IsPlain}

abbrev pub contents : Bytes
contents = codes "one" ++ (10 ∷ codes "two")

-- Each file of the sender reads the same.
abbrev pub read_any : Bytes → Option Bytes
read_any path = some contents

abbrev pub anywhere : Bytes → Bool
anywhere path = true

abbrev pub difference : List DiffInfo
difference =
    record { filename = codes "a"; dirty = fs_lack }
    ∷ record { filename = codes "b"; dirty = clean }
    ∷ record { filename = codes "c"; dirty = dirty }
    ∷ []

abbrev pub nothing_yet : Receiver
nothing_yet = record { disk = λ path. none; stream = null }

two_lines :
    send_file (codes "a") contents
    ≡ some (
        record { index = pos 0; buf = codes "a"; buf_len = 0 }
        ∷ record { index = pos 1; buf = codes "one" ++ (10 ∷ []); buf_len = 4 }
        ∷ record { index = pos 2; buf = codes "two"; buf_len = 3 }
        ∷ record { index = negsuc 0; buf = []; buf_len = 0 }
        ∷ [])
unfolding send_file send_lines send_line fgets read_line strlen
two_lines = refl

pub plain :
    (name : Bytes) (status : FileStatus)
    → HasNoNul name
    → length name < 40
    → IsPlain anywhere read_any
        (codes "/repo/")
        (codes "/served/")
        (record { filename = name; dirty = status })
plain name status nul short = record {
  name = nul;
  source = omega (arith, short);
  fits = omega (arith, short);
  may_write = refl;
  text = λ t e. ground arith;
}

pub all-IsPlain : All (IsPlain anywhere read_any (codes "/repo/") (codes "/served/")) difference
all-IsPlain = (
  plain (codes "a") fs_lack (ground arith) (omega arith),
  (
    plain (codes "b") clean (ground arith) (omega arith),
    (plain (codes "c") dirty (ground arith) (omega arith), tt),
  ),
)

interleaved_line_example :
    (q : Receiver) × (receive_all anywhere (codes "/served/") nothing_yet (
        record { index = pos 0; buf = codes "a"; buf_len = 0 }
        ∷ (record { index = pos 0; buf = codes "b"; buf_len = 0 }
            ∷ (record { index = pos 1; buf = contents; buf_len = strlen contents } ∷ [])))
      ≡ some q)
    × (q.disk (codes "/served/b") ≡ some contents)
    × (q.disk (codes "/served/a") ≡ some [])
interleaved_line_example =
    interleaved_line anywhere (codes "/served/") (codes "a") (codes "b") contents 0 nothing_yet
      (ground arith) (ground arith) (ground arith) (omega arith) (omega arith) refl refl
      (ground arith)
