-- ===== src/Tests/Meeting.antt =====
-- Two programs for files that meet, and that both become servers.
use librtcdc.Base.{ℕ, ◌≡◌, refl, true, false, some, List, [], ◌∷◌, codes, arith, decimal}
use librtcdc.Peer.{server}
use librtcdc.Sdp.{random_integer, random_number_string, ice_lines}
use librtcdc.Candidates.{on_candidate}
use librtcdc.FileTrans.Signal.{Signal, LwsReason, client_writeable}
use librtcdc.FileTrans.Meeting.{Caller, IsCaller, ends, meeting, mains_meet}
use librtcdc.Tests.Agreeing.{
  agent, ours, theirs, party, ours-IsFresh, theirs-IsFresh, ours-IsPlain, theirs-IsPlain,
}
use librtcdc.Tests.Collecting.{two_lines, two_text, two_lines-IsCandidate}
use librtcdc.Tests.Describing.{glib, glib-IsGlib}
use librtcdc.Tests.Sharing.{calm}
use librtcdc.Tests.Transports.{in_use}

abbrev anna : Caller
anna = record {
  name = codes "Anna";
  own = ours;
  party = party;
  globals = in_use;
  count = 0;
  signal = calm;
  lines = two_lines;
  candidates = two_text;
}

abbrev bert : Caller
bert = record anna { name = codes "Bert"; own = theirs }

anna-IsCaller : IsCaller glib glib-IsGlib anna
unfolding random_integer random_number_string ice_lines decimal on_candidate
anna-IsCaller = record {
  fresh = ours-IsFresh;
  plain = ours-IsPlain;
  offer_fits = omega arith;
  answer_fits = omega arith;
  name_fits = omega arith;
  nothing = refl;
  lines_short = two_lines-IsCandidate;
  collected = refl;
}

bert-IsCaller : IsCaller glib glib-IsGlib bert
unfolding random_integer random_number_string ice_lines decimal on_candidate
bert-IsCaller = record {
  fresh = theirs-IsFresh;
  plain = theirs-IsPlain;
  offer_fits = omega arith;
  answer_fits = omega arith;
  name_fits = omega arith;
  nothing = refl;
  lines_short = two_lines-IsCandidate;
  collected = refl;
}

-- The connection is writeable once in each pause.
abbrev writing : ℕ → List LwsReason
writing i = client_writeable ∷ []

mains_meet_example :
    (s t : Signal) × (meeting glib glib-IsGlib agent false writing anna bert
      ≡ some (
        ends glib glib-IsGlib agent anna bert server true s,
        ends glib glib-IsGlib agent bert anna server true t,
      ))
mains_meet_example =
    mains_meet glib glib-IsGlib agent false writing anna bert anna-IsCaller bert-IsCaller
      (λ i. (tt, tt))
