-- ===== src/FileServer/Transfers.antt =====
-- The offer of sy_upload in APIs/cli/sy.c, through the metadata server to the file server, and its answer back.
use librtcdc.Base.{
  ℕ, suc, ◌<◌, ◌≡◌, refl, Bool, true, false, Option, some, List, [], ◌∷◌, ◌++◌, map, Bytes, codes,
  All, arith, lt→ltb, length, ℤ, pos,
}
use librtcdc.Peer.{Role, server}
use librtcdc.Lifecycle.{Globals}
use librtcdc.Transfer.{local_path_size}
use librtcdc.Meta.Json.{IsJson}
use librtcdc.Meta.Store.{MetadataType}
use librtcdc.Meta.Database.{WriteData, Driver, strcpy}
use librtcdc.Meta.Server.{write_data_size}
use librtcdc.Sdp.Splitting.{Glib, IsGlib}
use librtcdc.Sdp.{
  Local, Agent, Party, buffer_size, crlf_text, parse_candidates_of, rtcdc_parse_offer_sdp,
}
use librtcdc.Sdp.Exchange.{IsPlain}
use librtcdc.Sdp.Agreement.{
  port_of, connected, described, handed, IsFresh, offer_heard, answer_made,
}
use librtcdc.Candidates.{hear}
use librtcdc.Candidates.Lines.{IsCandidate, collect, collect_parse}
use librtcdc.Protocol.{SessionDiff}
use librtcdc.FileServer.Messages.{IsOffer}
use librtcdc.FileServer.{Host, Outside, warehouse, respond, ready_answer, answer_offer}

module _ {C : Type 0} (glib : Glib) (laws : IsGlib glib) (agent : Agent C) where
  -- The candidates that libnice is handed, one line each.
  abbrev pub each_candidate : List Bytes → List (List C)
  each_candidate ls = map (λ l. parse_candidates_of glib agent (l ∷ [])) ls

  pub hear_all :
      (l : Local) (sdp : Option Bytes) (p q : Party) (result : ℤ) (ls : List Bytes)
      (candidates : Bytes)
      → rtcdc_parse_offer_sdp glib agent l sdp p ≡ some (result, q)
      → q.link.transport ≡ true
      → All IsCandidate ls
      → collect [] ls ≡ some candidates
      → hear glib agent l sdp candidates p ≡ some (result, each_candidate ls, q)
  unfolding hear
  hear_all l sdp p q result ls candidates heard there h collected =
      let lists =
        collect_parse glib laws agent ls candidates (suc (length candidates)) h collected
          (omega arith) in
      rw (heard, there, lists) refl

-- The sides of a transfer: what their libraries give, the peers and what becomes of the global variables,
-- the lines of their candidates, and the text of them.
pub record Side : Type 0 where
  pub own : Local
  pub party : Party
  pub globals : Globals
  pub count : ℕ
  pub lines : List Bytes
  pub candidates : Bytes

-- Its transport can be made, its description fits and has no stray carriage return, and its candidates
-- are short lines that on_candidate has collected.
pub record IsSide (glib : Glib) (laws : IsGlib glib) (active : Bool) (s : Side) : Type 0 where
  pub fresh : IsFresh s.count s.own s.party s.globals
  pub plain : IsPlain glib laws s.own
  pub fits : length (crlf_text (described glib s.own active)) < buffer_size
  pub lines_short : All IsCandidate s.lines
  pub collected : collect [] s.lines ≡ some s.candidates

module _ {E S F U C : Type 0} (lib : Driver E S F U) (json_laws : IsJson lib.json) (glib : Glib)
    (laws : IsGlib glib) (agent : Agent C) where
  abbrev pub sdp_of : Bool → Side → Bytes
  sdp_of active s = crlf_text (described glib s.own active)

  -- What becomes of the side, when the other side has been heard.
  abbrev pub joined : Role → Side → Side → Party
  joined role s t = connected s.own s.party s.globals role (pos (port_of t.own))

  -- The answer of the file server.
  abbrev pub answer_to : MetadataType → Bytes → Side → E
  answer_to type id t = ready_answer lib.json type id (some (sdp_of false t)) t.candidates

  -- The file server, when it has answered.
  abbrev pub answered :
      MetadataType → Option SessionDiff → ℕ → (id path : Bytes) → Side → Side → Host C → Host C
  answered type compared wsi id path s t m = record m {
    write_data =
        some (record {
          target_wsi = wsi;
          type = type;
          content = lib.json.dumps (answer_to type id t);
        });
    on_writable = m.on_writable ++ wsi ∷ [];
    works =
        m.works
        ++ record {
          result = agent.parse_remote_sdp (handed glib s.own true);
          handed = each_candidate glib laws agent s.lines;
          party = joined server t s;
          local_repo_path = path;
          session_diff = compared;
        }
          ∷ [];
  }

  pub answer_offer_made :
      (type : MetadataType) (compared : Option SessionDiff) (o : Outside) (wsi : ℕ)
      (id repo : Bytes) (s t : Side) (m : Host C) (w : WriteData) (msg : E)
      → IsSide glib laws true s
      → IsSide glib laws false t
      → o.own ≡ t.own
      → o.party ≡ t.party
      → o.candidates ≡ t.candidates
      → IsOffer lib json_laws id repo (sdp_of true s) s.candidates msg
      → m.write_data ≡ some w
      → length (lib.json.dumps (answer_to type id t)) < write_data_size
      → length (warehouse ++ (repo ++ codes "/")) < local_path_size
      → answer_offer lib.json glib agent type compared o wsi msg m
        ≡ some (answered type compared wsi id (warehouse ++ (repo ++ codes "/")) s t m)
  unfolding answer_offer respond strcpy
  answer_offer_made type compared o wsi id repo s t m w msg hs ht own party candidates texts there
        room path =
      let has_id = texts.has_id in
      let has_repo = texts.has_repo in
      let has_sdp = texts.has_sdp in
      let has_candidates = texts.has_candidates in
      let heard =
        hear_all glib laws agent t.own (some (sdp_of true s)) t.party (joined server t s)
          (agent.parse_remote_sdp (handed glib s.own true)) s.lines s.candidates
          (offer_heard glib laws agent t.count s.own t.own t.party t.globals ht.fresh hs.plain
            hs.fits)
          refl hs.lines_short hs.collected in
      let answer = answer_made glib laws t.own t.party t.globals (pos (port_of s.own)) ht.fits in
      let fits = lt→ltb _ write_data_size room in
      let path_fits = lt→ltb _ local_path_size path in
      rw
        (
          has_sdp, has_candidates, has_repo, has_id, own, party, heard, answer, candidates, there,
          fits, path_fits,
        )
        refl
