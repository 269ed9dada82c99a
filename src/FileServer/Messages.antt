-- ===== src/FileServer/Messages.antt =====
-- What stands in the offer that the metadata server sends on and in the answer of the file server.
use librtcdc.Base.{◌≡◌, ◌≢◌, ◌∙◌, ap, some, Bytes}
use librtcdc.Meta.Json.{
  Key, Json, IsJson, Value, text, text_of, put_text, number_of, metadata_type, session_id,
  repo_name, client_sdp, client_candidates, fs_sdp, fs_candidates,
}
use librtcdc.Meta.Store.{MetadataType, code}
use librtcdc.Meta.Database.{Driver}
use librtcdc.Meta.Server.{message}
use librtcdc.Meta.Sync.{offer}
use librtcdc.Meta.Rounds.{text_of-put, text_of-put_ne}
use librtcdc.Meta.Diff.{number_of-put}
use librtcdc.Protocol.{typed}
use librtcdc.Sdp.Splitting.{Glib}
use librtcdc.Sdp.{Agent}
use librtcdc.Client.Calls.{Session}
use librtcdc.Client.Offers.{transfer_message}
use librtcdc.FileServer.{ready_answer}

module _ {E S F U : Type 0} (lib : Driver E S F U) (laws : IsJson lib.json) where
  -- The texts of an offer.
  pub record IsOffer (id repo sdp candidates : Bytes) (msg : E) : Type 0 where
    pub has_id : text_of lib.json msg session_id ≡ some id
    pub has_repo : text_of lib.json msg repo_name ≡ some repo
    pub has_sdp : text_of lib.json msg client_sdp ≡ some sdp
    pub has_candidates : text_of lib.json msg client_candidates ≡ some candidates

  pub offer-IsOffer :
      (type : MetadataType) (id repo sdp candidates : Bytes)
      → IsOffer id repo sdp candidates (offer lib type id repo sdp candidates)
  offer-IsOffer type id repo sdp candidates =
      let one = lib.json.put (message lib type) session_id (text id) in
      let two = lib.json.put one repo_name (text repo) in
      let three = lib.json.put two client_sdp (text sdp) in
      let put = text_of-put lib.json laws in
      let skip = text_of-put_ne lib.json laws in
      record {
        has_id =
            skip three client_candidates session_id (text candidates) (λ x. cc)
            ∙ skip two client_sdp session_id (text sdp) (λ x. cc)
            ∙ skip one repo_name session_id (text repo) (λ x. cc)
            ∙ put (message lib type) session_id id;
        has_repo =
            skip three client_candidates repo_name (text candidates) (λ x. cc)
            ∙ skip two client_sdp repo_name (text sdp) (λ x. cc)
            ∙ put one repo_name repo;
        has_sdp =
            skip three client_candidates client_sdp (text candidates) (λ x. cc)
            ∙ put two client_sdp sdp;
        has_candidates = put three client_candidates candidates;
      }

module _ {E : Type 0} (json : Json E) (laws : IsJson json) where
  number_of-put_ne :
      (e : E) (k l : Key) (v : Value E)
      → k ≢ l
      → number_of json (json.put e k v) l ≡ number_of json e l
  unfolding number_of
  number_of-put_ne e k l v h = rw (number_of, laws.get-put_ne e k l v h)

  -- The type and the texts of an answer.
  pub record IsReady (type : MetadataType) (sdp candidates : Bytes) (msg : E) : Type 0 where
    pub has_type : number_of json msg metadata_type ≡ some (code type)
    pub has_sdp : text_of json msg fs_sdp ≡ some sdp
    pub has_candidates : text_of json msg fs_candidates ≡ some candidates

  pub ready_answer-IsReady :
      (type : MetadataType) (id sdp candidates : Bytes)
      → IsReady type sdp candidates (ready_answer json type id (some sdp) candidates)
  ready_answer-IsReady type id sdp candidates =
      let one = json.put (typed json type) session_id (text id) in
      let two = json.put one fs_sdp (text sdp) in
      record {
        has_type =
            number_of-put_ne two fs_candidates metadata_type (text candidates) (λ x. cc)
            ∙ number_of-put_ne one fs_sdp metadata_type (text sdp) (λ x. cc)
            ∙ number_of-put_ne (typed json type) session_id metadata_type (text id) (λ x. cc)
            ∙ number_of-put json laws json.blank metadata_type (code type);
        has_sdp =
            text_of-put_ne json laws two fs_candidates fs_sdp (text candidates) (λ x. cc)
            ∙ text_of-put json laws one fs_sdp sdp;
        has_candidates = text_of-put json laws two fs_candidates candidates;
      }

module _ {E C : Type 0} (json : Json E) (laws : IsJson json) (glib : Glib) (agent : Agent C) where
  -- The texts of what sy_upload and sy_download write.
  pub record IsTransfer (id sdp candidates : Bytes) (msg : E) : Type 0 where
    pub has_id : text_of json msg session_id ≡ some id
    pub has_sdp : text_of json msg client_sdp ≡ some sdp
    pub has_candidates : text_of json msg client_candidates ≡ some candidates

  pub transfer_message-IsTransfer :
      (type : MetadataType) (s : Session) (id sdp candidates : Bytes)
      → s.session_id ≡ some id
      → IsTransfer id sdp candidates (transfer_message json glib agent type s (some sdp) candidates)
  transfer_message-IsTransfer type s id sdp candidates known =
      let one = put_text json (typed json type) session_id s.session_id in
      let two = json.put one client_sdp (text sdp) in
      let put = text_of-put json laws in
      let skip = text_of-put_ne json laws in
      record {
        has_id =
            skip two client_candidates session_id (text candidates) (λ x. cc)
            ∙ skip one client_sdp session_id (text sdp) (λ x. cc)
            ∙ ap (λ t. text_of json (put_text json (typed json type) session_id t) session_id) known
            ∙ put (typed json type) session_id id;
        has_sdp =
            skip two client_candidates client_sdp (text candidates) (λ x. cc)
            ∙ put one client_sdp sdp;
        has_candidates = put two client_candidates candidates;
      }
