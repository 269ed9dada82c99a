-- ===== src/Tests/Agreeing.antt =====
-- Two peers that connect.
use librtcdc.Base.{ℕ, ◌≡◌, refl, none, some, [], ◌∷◌, ◌++◌, codes, arith, decimal, pos}
use librtcdc.Peer.{client, server}
use librtcdc.Sdp.{Local, Agent, Party, random_integer, random_number_string, ice_lines}
use librtcdc.Sdp.Exchange.{IsPlain}
use librtcdc.Sdp.Agreement.{exchange, connected, port_of, IsFresh, exchange_roles}
use librtcdc.Tests.Transports.{all_well, fresh, alone, in_use, fresh-IsCounted, all_created}
use librtcdc.Tests.Describing.{glib, glib-IsGlib}

abbrev pub agent : Agent ℕ
agent = record {
  parse_remote_sdp = λ text. pos 1;
  parse_candidate = λ line. none;
  set_candidates = λ cs. pos 0;
}

abbrev pub ours : Local
ours = record {
  outcomes = all_well;
  port_random = 5;
  session_random = 7 ∷ 31 ∷ [];
  ice_sdp = codes "m=-" ++ 10 ∷ codes "a=ice-ufrag:Ab" ++ 10 ∷ [];
  fingerprint = codes "0A:1B";
}

abbrev pub theirs : Local
theirs = record ours { port_random = 60006 }

abbrev pub party : Party
party = record { link = alone; local_port = 0; remote_port = pos 0; globals = fresh }

pub ours-IsFresh : IsFresh 0 ours party in_use
ours-IsFresh = record { counted = fresh-IsCounted; free = refl; made = (_, all_created) }

pub theirs-IsFresh : IsFresh 0 theirs party in_use
theirs-IsFresh = record { counted = fresh-IsCounted; free = refl; made = (_, all_created) }

pub ours-IsPlain : IsPlain glib glib-IsGlib ours
ours-IsPlain = record { ice = ground arith; fingerprint = ground arith }

pub theirs-IsPlain : IsPlain glib glib-IsGlib theirs
theirs-IsPlain = record { ice = ground arith; fingerprint = ground arith }

drawn : port_of theirs ≡ 20005
unfolding random_integer
drawn = refl

exchange_roles_example :
    exchange glib agent agent ours theirs party party
    ≡ some (
      (pos 1, connected ours party in_use client (pos (port_of theirs))),
      (pos 1, connected theirs party in_use server (pos (port_of ours))),
    )
unfolding random_integer random_number_string ice_lines decimal
exchange_roles_example =
    exchange_roles glib glib-IsGlib agent agent 0 0 ours theirs party party in_use in_use
      ours-IsFresh theirs-IsFresh ours-IsPlain theirs-IsPlain (omega arith) (omega arith)
