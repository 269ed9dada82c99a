-- ===== src/Sdp.antt =====
-- src/sdp.c, and the functions of src/rtcdc.c that write and read session descriptions. A run that
-- overruns the buffer, or passes NULL to atoi or strcmp, is `none`.
pub mod Splitting
pub mod Reading
pub mod Exchange
pub mod Answer
pub mod Agreement
use librtcdc.Base.{
  ℕ, zero, suc, ◌+◌, ◌-◌, ◌%◌, ◌<◌, Bool, true, false, ◌||◌, ◌&&◌, Option, none, some, List, [],
  ◌∷◌, ◌++◌, Bytes, codes, if◌then◌else◌, ltb, length, get_elem?, bytes_eq, decimal, atoi, ℤ, pos,
  negsuc, ◌>>=◌,
}
use librtcdc.Peer.{Role, unknown, client, server, Status, success, failure}
use librtcdc.Lifecycle.{Globals, Outcomes, Link, create_rtcdc_transport}
use librtcdc.Sdp.Splitting.{Glib}

-- BUFFER_SIZE of src/common.h
abbrev pub buffer_size : ℕ
buffer_size = 65536

-- `r` is what rand gives; least < most is asserted, and holds in the one call.
unfoldable pub random_integer : (least most r : ℕ) → ℕ
random_integer least most r = r % (most + 1 - least) + least

unfoldable pub random_number_string : List ℕ → Bytes
random_number_string [] = []
random_number_string (r ∷ rs) = (48 + r % 10) ∷ random_number_string rs

-- What the other libraries give on the way: the results of the calls that make a transport, what rand
-- gives for the port and for the 16 digits of the session id, the description that libnice has of itself, and the
-- fingerprint of the certificate.
pub record Local : Type 0 where
  pub outcomes : Outcomes
  pub port_random : ℕ
  pub session_random : List ℕ
  pub ice_sdp : Bytes
  pub fingerprint : Bytes

-- What libnice makes of the texts that it is handed: the result for a description; the candidate of a
-- line, if it reads it; and the result for a list of candidates.
pub record Agent (C : Type 0) : Type 0 where
  pub parse_remote_sdp : Bytes → ℤ
  pub parse_candidate : Bytes → Option C
  pub set_candidates : List C → ℤ

-- The peer, with the ports of its SCTP transport, and the global variables.
pub record Party : Type 0 where
  pub link : Link
  pub local_port : ℕ
  pub remote_port : ℤ
  pub globals : Globals

module _ (glib : Glib) where
  -- The lines of the ICE description that are passed on.
  unfoldable pub ice_lines : List Bytes → List Bytes
  ice_lines [] = []
  ice_lines (l ∷ ls) =
      let rest = ice_lines ls in
      if glib.has_prefix l (codes "a=ice-ufrag:") || glib.has_prefix l (codes "a=ice-pwd:")
      then l ∷ rest
      else rest

  unfoldable pub candidate_lines : List Bytes → List Bytes
  candidate_lines [] = []
  candidate_lines (l ∷ ls) =
      let rest = candidate_lines ls in
      if glib.has_prefix l (codes "a=candidate:") then l ∷ rest else rest

  -- The lines, each behind which stands "\r\n".
  abbrev pub setup_line : Bool → Bytes
  setup_line true = codes "a=setup:active"
  setup_line false = codes "a=setup:passive"

  abbrev pub sdp_lines : Local → (port : ℕ) → (active : Bool) → List Bytes
  sdp_lines l port active =
      codes "v=0"
      ∷ (codes "o=- " ++ (random_number_string l.session_random ++ codes " 2 IN IP4 127.0.0.1"))
      ∷ codes "s=-"
      ∷ codes "t=0 0"
      ∷ codes "a=msid-semantic: WMS"
      ∷ (codes "m=application 1 DTLS/SCTP " ++ decimal port)
      ∷ codes "c=IN IP4 0.0.0.0"
      ∷ (ice_lines (glib.split l.ice_sdp (10 ∷ []))
          ++ (codes "a=fingerprint:sha-256 " ++ l.fingerprint)
            ∷ setup_line active
            ∷ codes "a=mid:data"
            ∷ (codes "a=sctpmap:" ++ (decimal port ++ codes " webrtc-datachannel 1024"))
            ∷ [])

abbrev pub crlf_text : List Bytes → Bytes
crlf_text [] = []
crlf_text (l ∷ ls) = l ++ (13 ∷ 10 ∷ crlf_text ls)

-- sprintf into the buffer, with its NUL.
unfoldable pub in_buffer : Bytes → Option Bytes
in_buffer text = if ltb (length text) buffer_size then some text else none

module _ (glib : Glib) where
  unfoldable pub generate_local_sdp : Local → ℕ → Bool → Option Bytes
  generate_local_sdp l port active = in_buffer (crlf_text (sdp_lines glib l port active))

  unfoldable pub generate_local_candidate_sdp : Local → Option Bytes
  generate_local_candidate_sdp l =
      in_buffer (crlf_text (candidate_lines glib (glib.split l.ice_sdp (10 ∷ []))))

  abbrev pub is_client : Role → Bool
  is_client client = true
  is_client server = false
  is_client unknown = false

  abbrev pub is_server : Role → Bool
  is_server client = false
  is_server server = true
  is_server unknown = false

  -- if (peer->transport == NULL) create_rtcdc_transport(peer, RTCDC_PEER_ROLE_CLIENT)
  unfoldable pub with_transport : Local → Party → Status × Party
  with_transport l p =
      let made = create_rtcdc_transport l.outcomes p.link client p.globals in
      if p.link.transport then (success, p) else (
        made.0,
        record {
          link = made.1.0;
          local_port = random_integer 10000 60000 l.port_random;
          remote_port = pos 0;
          globals = made.1.1;
        },
      )

  unfoldable pub offer_of : Local → Status × Party → Option (Option Bytes × Party)
  offer_of l (failure, p) = some (none, p)
  offer_of l (success, p) = do
    text ← generate_local_sdp l p.local_port (is_client p.link.role)
    some (some text, p)

  -- The description, or NULL, of a peer that is not NULL.
  unfoldable pub rtcdc_generate_offer_sdp : Local → Party → Option (Option Bytes × Party)
  rtcdc_generate_offer_sdp l p = offer_of l (with_transport l p)

  unfoldable pub set_role : Role → Party → Party
  set_role role p = record p { link = record p.link { role = role } }

  -- The role after "a=setup:" and the second column.
  unfoldable pub settle : Bytes → Party → Party
  settle column p =
      if bytes_eq column (codes "active") && is_client p.link.role
      then set_role server p
      else if bytes_eq column (codes "passive") && is_server p.link.role
      then set_role client p
      else p

  -- remote_port <= 0 returns -1; the flag says whether the loop goes on.
  unfoldable pub set_remote_port : ℤ → Party → Bool × Party
  set_remote_port (pos zero) p = (false, p)
  set_remote_port (pos (suc n)) p = (true, record p { remote_port = pos (suc n) })
  set_remote_port (negsuc n) p = (false, p)

  unfoldable pub read_line : Bytes → Party → Option (Bool × Party)
  read_line l p =
      if glib.has_prefix l (codes "m=application")
      then (do
        column ← get_elem? (glib.split l (32 ∷ [])) 3
        some (set_remote_port (atoi column) p))
      else if glib.has_prefix l (codes "a=setup:")
      then (do column ← get_elem? (glib.split l (58 ∷ [])) 1; some (true, settle column p))
      else some (true, p)

  -- The loop over the lines; `buf` is what sprintf has put into the buffer. Without a text, -1 is
  -- returned.
  unfoldable pub read_lines : List Bytes → Bytes → Party → Option (Option Bytes × Party)
  read_lines [] buf p = some (some buf, p)
  read_lines (l ∷ ls) buf p = do
    step ← read_line l p
    let rest = read_lines ls (buf ++ (l ++ 10 ∷ [])) step.1
    if step.0
        then (if ltb (length (buf ++ (l ++ 10 ∷ []))) buffer_size then rest else none)
        else some (none, step.1)

module _ {C : Type 0} (glib : Glib) (agent : Agent C) where
  -- parse_remote_sdp with an agent
  unfoldable pub hand_over : Option Bytes × Party → ℤ × Party
  hand_over (none, p) = (negsuc 0, p)
  hand_over (some text, p) = (agent.parse_remote_sdp text, p)

  unfoldable pub parse_with : Bytes → Status × Party → Option (ℤ × Party)
  parse_with offer (failure, p) = some (negsuc 0, p)
  parse_with offer (success, p) = do
    read ← read_lines glib (glib.split offer (13 ∷ 10 ∷ [])) [] p
    some (hand_over read)

  -- With a peer; the offer may be NULL.
  unfoldable pub rtcdc_parse_offer_sdp : Local → Option Bytes → Party → Option (ℤ × Party)
  rtcdc_parse_offer_sdp l none p = some (negsuc 0, p)
  rtcdc_parse_offer_sdp l (some offer) p = parse_with offer (with_transport glib l p)

  unfoldable pub parse_candidates_of : List Bytes → List C
  parse_candidates_of [] = []
  parse_candidates_of (l ∷ ls) =
      let rest = parse_candidates_of ls in
      elim (agent.parse_candidate l) [ none ↦ rest | some c ↦ c ∷ rest ]

  -- With an agent: the result, and the candidates that libnice has been handed.
  unfoldable pub parse_remote_candidate_sdp : Bytes → ℤ × List C
  parse_remote_candidate_sdp text =
      let list = parse_candidates_of (glib.split text (13 ∷ 10 ∷ [])) in
      (agent.set_candidates list, list)

  -- The flag says whether the peer has a transport.
  unfoldable pub rtcdc_parse_candidate_sdp : Bool → Bytes → ℤ × List (List C)
  rtcdc_parse_candidate_sdp false text = (negsuc 0, [])
  rtcdc_parse_candidate_sdp true text =
      let done = parse_remote_candidate_sdp text in (done.0, done.1 ∷ [])
