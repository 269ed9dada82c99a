-- ===== src/Sdp/Agreement.antt =====
-- Two peers that connect: the offer of rtcdc_generate_offer_sdp goes to rtcdc_parse_offer_sdp of the other
-- peer, and its answer comes back.
use librtcdc.Base.{
  ℕ, ◌<◌, ◌≡◌, refl, ap, sym, ◌∙◌, Bool, true, false, Option, some, List, [], ◌∷◌, ◌++◌, Bytes,
  arith, lt→ltb, length, ℤ, pos, ◌>>=◌,
}
use librtcdc.Peer.{Role, client, server, success}
use librtcdc.Lifecycle.{Globals, Link, create_rtcdc_transport}
use librtcdc.Lifecycle.Counts.{IsCounted}
use librtcdc.Lifecycle.Outcome.{create_destroy}
use librtcdc.Sdp.Splitting.{Glib, IsGlib}
use librtcdc.Sdp.{
  Local, Agent, Party, buffer_size, random_integer, is_client, sdp_lines, crlf_text, in_buffer,
  generate_local_sdp, with_transport, offer_of, rtcdc_generate_offer_sdp, parse_with, settle,
  set_role, rtcdc_parse_offer_sdp,
}
use librtcdc.Sdp.Reading.{lf_text}
use librtcdc.Sdp.Exchange.{random_integer_bounds, IsPlain}
use librtcdc.Sdp.Answer.{parse_sdp, with_transport_there}

-- The port that is drawn for the SCTP transport.
abbrev pub port_of : Local → ℕ
port_of l = random_integer 10000 60000 l.port_random

-- The peer with a new transport, in the role.
abbrev pub connected : Local → Party → Globals → Role → ℤ → Party
connected l p g role port = record {
  link = record p.link { transport = true; role = role; initialized = true };
  local_port = port_of l;
  remote_port = port;
  globals = g;
}

-- What stands in the description of the peer, and what libnice is handed of it.
abbrev pub described : Glib → Local → Bool → List Bytes
described glib l active = sdp_lines glib l (port_of l) active

abbrev pub handed : Glib → Local → Bool → Bytes
handed glib l active = lf_text (described glib l active ++ [] ∷ [])

-- The offerer makes an offer, the other peer reads it and makes its answer, which the offerer reads. The
-- results of both, with the peers.
abbrev pub exchange :
    {C : Type 0}
    → Glib
    → Agent C
    → Agent C
    → Local
    → Local
    → Party
    → Party
    → Option ((ℤ × Party) × (ℤ × Party))
exchange glib a b k l p q = do
  offer ← rtcdc_generate_offer_sdp glib k p
  heard ← rtcdc_parse_offer_sdp glib b l offer.0 q
  answer ← rtcdc_generate_offer_sdp glib l heard.1
  done ← rtcdc_parse_offer_sdp glib a k answer.0 offer.1
  some (done, (heard.0, answer.1))

-- A peer without a transport, for which one can be made with these global variables as the result.
pub record IsFresh (n : ℕ) (l : Local) (p : Party) (g : Globals) : Type 0 where
  pub counted : IsCounted n p.globals
  pub free : p.link.transport ≡ false
  pub made :
      (k : Link) × (create_rtcdc_transport l.outcomes p.link client p.globals ≡ (success, (k, g)))

module _ (glib : Glib) (laws : IsGlib glib) where
  with_transport_fresh :
      (n : ℕ) (l : Local) (p : Party) (g : Globals)
      → IsFresh n l p g
      → with_transport glib l p ≡ (success, connected l p g client (pos 0))
  unfolding with_transport
  with_transport_fresh n l p g fresh =
      let (k, created) = fresh.made in
      let shape =
        (create_destroy n l.outcomes l.outcomes p.link k client p.globals g fresh.counted fresh.free
          created).0 in
      simp (fresh.free, created, shape)

  generate_sdp :
      (o : Local) (p q : Party)
      → with_transport glib o p ≡ (success, q)
      → length (crlf_text (sdp_lines glib o q.local_port (is_client glib q.link.role)))
        < buffer_size
      → rtcdc_generate_offer_sdp glib o p
        ≡ some (some (crlf_text (sdp_lines glib o q.local_port (is_client glib q.link.role))), q)
  unfolding rtcdc_generate_offer_sdp offer_of generate_local_sdp in_buffer
  generate_sdp o p q there fits = let room = lt→ltb _ buffer_size fits in rw (there, room) refl

  parse_same :
      {C : Type 0} (agent : Agent C) (o : Local) (text : Bytes) (p q : Party)
      → with_transport glib o p ≡ with_transport glib o q
      → rtcdc_parse_offer_sdp glib agent o (some text) p
        ≡ rtcdc_parse_offer_sdp glib agent o (some text) q
  unfolding rtcdc_parse_offer_sdp
  parse_same agent o text p q same = ap (parse_with glib agent text) same

  port_positive : (l : Local) → 0 < port_of l
  port_positive l = omega (arith, (random_integer_bounds 10000 60000 l.port_random (omega arith)).0)

  -- The four calls, one by one: the offer,
  pub offer_made :
      (m : ℕ) (k : Local) (p : Party) (g : Globals)
      → IsFresh m k p g
      → length (crlf_text (described glib k true)) < buffer_size
      → rtcdc_generate_offer_sdp glib k p
        ≡ some (some (crlf_text (described glib k true)), connected k p g client (pos 0))
  offer_made m k p g fresh fits =
      generate_sdp k p (connected k p g client (pos 0)) (with_transport_fresh m k p g fresh) fits

  -- the offer as a peer that is the client reads it,
  pub offer_read :
      {C : Type 0} (b : Agent C) (k l : Local) (q : Party) (h : Globals)
      → IsPlain glib laws k
      → length (crlf_text (described glib k true)) < buffer_size
      → rtcdc_parse_offer_sdp glib b l
          (some (crlf_text (described glib k true)))
          (connected l q h client (pos 0))
        ≡ some (b.parse_remote_sdp (handed glib k true), connected l q h server (pos (port_of k)))
  unfolding settle set_role
  offer_read b k l q h plain fits =
      parse_sdp glib laws b l k (port_of k) true (connected l q h client (pos 0)) plain
        (port_positive k) refl fits

  -- as a fresh peer reads it,
  pub offer_heard :
      {C : Type 0} (b : Agent C) (n : ℕ) (k l : Local) (q : Party) (h : Globals)
      → IsFresh n l q h
      → IsPlain glib laws k
      → length (crlf_text (described glib k true)) < buffer_size
      → rtcdc_parse_offer_sdp glib b l (some (crlf_text (described glib k true))) q
        ≡ some (b.parse_remote_sdp (handed glib k true), connected l q h server (pos (port_of k)))
  offer_heard b n k l q h fresh plain fits =
      let q' = connected l q h client (pos 0) in
      let same =
        with_transport_fresh n l q h fresh ∙ sym (with_transport_there glib laws l q' refl) in
      parse_same b l (crlf_text (described glib k true)) q q' same ∙ offer_read b k l q h plain fits

  -- the description that a connected peer makes, in its role,
  pub made_again :
      (l : Local) (q : Party) (h : Globals) (role : Role) (port : ℤ)
      → length (crlf_text (described glib l (is_client glib role))) < buffer_size
      → rtcdc_generate_offer_sdp glib l (connected l q h role port)
        ≡ some
            (some (crlf_text (described glib l (is_client glib role))), connected l q h role port)
  made_again l q h role port fits =
      let q' = connected l q h role port in
      generate_sdp l q' q' (with_transport_there glib laws l q' refl) fits

  -- the answer of that peer,
  pub answer_made :
      (l : Local) (q : Party) (h : Globals) (port : ℤ)
      → length (crlf_text (described glib l false)) < buffer_size
      → rtcdc_generate_offer_sdp glib l (connected l q h server port)
        ≡ some (some (crlf_text (described glib l false)), connected l q h server port)
  answer_made l q h port fits = made_again l q h server port fits

  -- and the answer as the first peer reads it.
  pub answer_heard :
      {C : Type 0} (a : Agent C) (k l : Local) (p : Party) (g : Globals)
      → IsPlain glib laws l
      → length (crlf_text (described glib l false)) < buffer_size
      → rtcdc_parse_offer_sdp glib a k
          (some (crlf_text (described glib l false)))
          (connected k p g client (pos 0))
        ≡ some (a.parse_remote_sdp (handed glib l false), connected k p g client (pos (port_of l)))
  unfolding settle
  answer_heard a k l p g plain fits =
      parse_sdp glib laws a k l (port_of l) false (connected k p g client (pos 0)) plain
        (port_positive l) refl fits

  -- If two peers without a transport exchange an offer and an answer that fit their buffers, and their
  -- transports can be made, then both calls of libnice get the whole description of the other side; the peer
  -- that made the offer is the client and the other the server, and each has the port that the other drew as
  -- the remote port.
  pub exchange_roles :
      {C : Type 0} (a b : Agent C) (m n : ℕ) (k l : Local) (p q : Party) (g h : Globals)
      → IsFresh m k p g
      → IsFresh n l q h
      → IsPlain glib laws k
      → IsPlain glib laws l
      → length (crlf_text (described glib k true)) < buffer_size
      → length (crlf_text (described glib l false)) < buffer_size
      → exchange glib a b k l p q
        ≡ some (
          (a.parse_remote_sdp (handed glib l false), connected k p g client (pos (port_of l))),
          (b.parse_remote_sdp (handed glib k true), connected l q h server (pos (port_of k))),
        )
  exchange_roles a b m n k l p q g h fresh_p fresh_q plain_k plain_l fits_k fits_l =
      let offer = offer_made m k p g fresh_p fits_k in
      let heard = offer_heard b n k l q h fresh_q plain_k fits_k in
      let answer = answer_made l q h (pos (port_of k)) fits_l in
      let done = answer_heard a k l p g plain_l fits_l in rw (offer, heard, answer, done) refl
