-- ===== src/Sdp/Answer.antt =====
-- The descriptions that two peers exchange before they connect.
use librtcdc.Base.{
  ℕ, ◌<◌, ◌≡◌, ◌≢◌, refl, ap, sym, Bool, true, false, some, List, [], ◌∷◌, ◌++◌, append_assoc,
  Bytes, codes, All, arith, length, length-append, drop, inl, decimal, decimal-IsDigits, pos,
}
use librtcdc.Peer.{success}
use librtcdc.Sdp.Splitting.{Glib, IsGlib, join, IsFree}
use librtcdc.Sdp.{
  Local, Agent, Party, buffer_size, random_number_string, ice_lines, sdp_lines, setup_line,
  crlf_text, with_transport, settle, read_line, read_lines, hand_over, parse_with,
  rtcdc_parse_offer_sdp,
}
use librtcdc.Sdp.Reading.{
  lf_text, lf_text-le-crlf_text, IsFree-append, digits-IsFree, IsRead, end-IsRead, cons-IsRead,
  passive-IsRead, passives-IsRead, port_line, role_line,
}
use librtcdc.Sdp.Exchange.{
  random_number_string-IsDigits, crlf_text-join, lf_text-append, All-append, setup_word, IsPlain,
  ice_lines-IsFree, ice_lines-IsPassive,
}

non_empty : (l rest : Bytes) → l ++ (13 ∷ 10 ∷ rest) ≢ []
non_empty [] rest e = cc
non_empty (c ∷ l) rest e = cc

module _ (glib : Glib) (laws : IsGlib glib) where
  number-IsFree : (n : ℕ) → IsFree 13 (decimal n)
  number-IsFree n = digits-IsFree 13 (decimal n) (inl (omega arith)) (decimal-IsDigits n)

  setup_line-IsFree : (active : Bool) → IsFree 13 (setup_line glib active)
  setup_line-IsFree true = ground arith
  setup_line-IsFree false = ground arith

  abbrev tail_lines : Local → ℕ → Bool → List Bytes
  tail_lines l n active =
      (codes "a=fingerprint:sha-256 " ++ l.fingerprint)
      ∷ setup_line glib active
      ∷ codes "a=mid:data"
      ∷ (codes "a=sctpmap:" ++ (decimal n ++ codes " webrtc-datachannel 1024"))
      ∷ []

  tail_lines-IsFree :
      (l : Local) (n : ℕ) (active : Bool)
      → IsPlain glib laws l
      → All (IsFree 13) (tail_lines l n active)
  tail_lines-IsFree l n active h = (
    IsFree-append 13 (codes "a=fingerprint:sha-256 ") l.fingerprint (ground arith) h.fingerprint,
    (
      setup_line-IsFree active,
      (
        ground arith,
        (
          IsFree-append 13 (codes "a=sctpmap:") (decimal n ++ codes " webrtc-datachannel 1024")
              (ground arith)
              (IsFree-append 13 (decimal n) (codes " webrtc-datachannel 1024") (number-IsFree n)
                (ground arith)),
          tt,
        ),
      ),
    ),
  )

  sdp_lines-IsFree :
      (l : Local) (n : ℕ) (active : Bool)
      → IsPlain glib laws l
      → All (IsFree 13) (sdp_lines glib l n active)
  sdp_lines-IsFree l n active h =
      let rest =
        All-append (IsFree 13) (ice_lines glib (glib.split l.ice_sdp (10 ∷ [])))
          (tail_lines l n active)
          (ice_lines-IsFree glib laws (glib.split l.ice_sdp (10 ∷ [])) h.ice)
          (tail_lines-IsFree l n active h) in
      let session =
        IsFree-append 13 (codes "o=- ")
          (random_number_string l.session_random ++ codes " 2 IN IP4 127.0.0.1") (ground arith)
          (IsFree-append 13 (random_number_string l.session_random) (codes " 2 IN IP4 127.0.0.1")
            (digits-IsFree 13 (random_number_string l.session_random) (inl (omega arith))
              (random_number_string-IsDigits l.session_random))
            (ground arith)) in
      let media =
        IsFree-append 13 (codes "m=application 1 DTLS/SCTP ") (decimal n) (ground arith)
          (number-IsFree n) in
      (
        ground arith,
        (session, (ground arith, (ground arith, (ground arith, (media, (ground arith, rest)))))),
      )

  split_crlf :
      (l : Bytes) (ls : List Bytes)
      → All (IsFree 13) (l ∷ ls)
      → glib.split (crlf_text (l ∷ ls)) (13 ∷ 10 ∷ []) ≡ (l ∷ ls) ++ [] ∷ []
  split_crlf l ls h =
      let free : All (IsFree 13) ((l ∷ ls) ++ [] ∷ []) =
        All-append (IsFree 13) (l ∷ ls) ([] ∷ []) h (tt, tt) in
      let some_text : join (13 ∷ 10 ∷ []) ((l ∷ ls) ++ [] ∷ []) ≢ [] =
        rw (sym (crlf_text-join l ls)) (non_empty l (crlf_text ls)) in
      rw (crlf_text-join l ls) (laws.split-join 13 (10 ∷ []) ((l ∷ ls) ++ [] ∷ []) free some_text)

  setup_lines :
      (p : Party) (active : Bool)
      → read_line glib (setup_line glib active) p ≡ some (true, settle glib (setup_word active) p)
  setup_lines p true = role_line glib laws (codes "active") p (ground arith)
  setup_lines p false = role_line glib laws (codes "passive") p (ground arith)

  tail_lines-IsRead :
      (l : Local) (n : ℕ) (active : Bool) (p : Party)
      → IsRead glib laws (tail_lines l n active ++ [] ∷ []) p (settle glib (setup_word active) p)
  tail_lines-IsRead l n active p =
      let last = end-IsRead glib laws (settle glib (setup_word active) p) in
      let after =
        passives-IsRead glib laws
          (codes "a=mid:data"
            ∷ (codes "a=sctpmap:" ++ (decimal n ++ codes " webrtc-datachannel 1024"))
            ∷ []
            ∷ [])
          [] (settle glib (setup_word active) p) (settle glib (setup_word active) p)
          (ground arith, (ground arith, (ground arith, tt))) last in
      passive-IsRead glib laws (codes "a=fingerprint:sha-256 " ++ l.fingerprint) _ p
        (settle glib (setup_word active) p) (ground arith)
        (cons-IsRead glib laws (setup_line glib active) _ p (settle glib (setup_word active) p)
          (settle glib (setup_word active) p) (setup_lines p active) after)

  sdp_lines-IsRead :
      (l : Local) (n : ℕ) (active : Bool) (p : Party)
      → 0 < n
      → IsRead glib laws
          (sdp_lines glib l n active ++ [] ∷ [])
          p
          (settle glib (setup_word active) (record p { remote_port = pos n }))
  sdp_lines-IsRead l n active p h =
      let ice = ice_lines glib (glib.split l.ice_sdp (10 ∷ [])) in
      let q : Party = record p { remote_port = pos n } in
      let end = settle glib (setup_word active) q in
      let rest =
        passives-IsRead glib laws ice (tail_lines l n active ++ [] ∷ []) q end
          (ice_lines-IsPassive glib laws (glib.split l.ice_sdp (10 ∷ [])))
          (tail_lines-IsRead l n active q) in
      let joined : (ice ++ tail_lines l n active) ++ [] ∷ []
          ≡ ice ++ (tail_lines l n active ++ [] ∷ []) =
        append_assoc ice (tail_lines l n active) ([] ∷ []) in
      let behind : IsRead glib laws ((ice ++ tail_lines l n active) ++ [] ∷ []) q end =
        rw joined rest in
      let media =
        cons-IsRead glib laws (codes "m=application 1 DTLS/SCTP " ++ decimal n) _ p q end
          (port_line glib laws n p h)
          (passive-IsRead glib laws (codes "c=IN IP4 0.0.0.0") _ q end (ground arith) behind) in
      passives-IsRead glib laws
        (codes "v=0"
          ∷ (codes "o=- " ++ (random_number_string l.session_random ++ codes " 2 IN IP4 127.0.0.1"))
          ∷ codes "s=-"
          ∷ codes "t=0 0"
          ∷ codes "a=msid-semantic: WMS"
          ∷ [])
        _ p end (ground arith, (ground arith, (ground arith, (ground arith, (ground arith, tt)))))
        media

  pub with_transport_there :
      (o : Local) (p : Party) → p.link.transport ≡ true → with_transport glib o p ≡ (success, p)
  unfolding with_transport
  with_transport_there o p there = simp there

  parse_lines :
      {C : Type 0} (agent : Agent C) (o : Local) (l : Bytes) (ls : List Bytes) (p q : Party)
      → All (IsFree 13) (l ∷ ls)
      → IsRead glib laws ((l ∷ ls) ++ [] ∷ []) p q
      → p.link.transport ≡ true
      → length (crlf_text (l ∷ ls)) < buffer_size
      → rtcdc_parse_offer_sdp glib agent o (some (crlf_text (l ∷ ls))) p
        ≡ some (agent.parse_remote_sdp (lf_text ((l ∷ ls) ++ [] ∷ [])), q)
  unfolding rtcdc_parse_offer_sdp parse_with hand_over
  parse_lines agent o l ls p q free reads there fits =
      let text = lf_text ((l ∷ ls) ++ [] ∷ []) in
      let room : length text < buffer_size = omega (
        arith,
        lf_text-le-crlf_text (l ∷ ls),
        ap length (lf_text-append (l ∷ ls) ([] ∷ [])),
        length-append (lf_text (l ∷ ls)) (10 ∷ []),
        fits,
      ) in
      let read : read_lines glib ((l ∷ ls) ++ [] ∷ []) [] p ≡ some (some text, q) = reads [] room in
      rw (with_transport_there o p there, split_crlf l ls free, read) refl

  -- The description of a peer, read by another peer with a transport.
  pub parse_sdp :
      {C : Type 0} (agent : Agent C) (o l : Local) (n : ℕ) (active : Bool) (p : Party)
      → IsPlain glib laws l
      → 0 < n
      → p.link.transport ≡ true
      → length (crlf_text (sdp_lines glib l n active)) < buffer_size
      → rtcdc_parse_offer_sdp glib agent o (some (crlf_text (sdp_lines glib l n active))) p
        ≡ some (
          agent.parse_remote_sdp (lf_text (sdp_lines glib l n active ++ [] ∷ [])),
          settle glib (setup_word active) (record p { remote_port = pos n }),
        )
  parse_sdp agent o l n active p plain positive there fits =
      parse_lines agent o (codes "v=0") (drop 1 (sdp_lines glib l n active)) p
        (settle glib (setup_word active) (record p { remote_port = pos n }))
        (sdp_lines-IsFree l n active plain) (sdp_lines-IsRead l n active p positive) there fits
