-- ===== src/Client/Offers.antt =====
-- sy_upload and sy_download of APIs/cli/sy.c. What json_unpack does not find, and a text that does not fit its
-- buffer, are `none`; `some none` is a call that still waits.
use librtcdc.Base.{ℕ, Option, none, some, List, Bytes, ◌>>=◌, ℤ}
use librtcdc.Meta.Json.{
  Json, text, text_of, put_text, session_id, client_sdp, client_candidates, fs_sdp, fs_candidates,
}
use librtcdc.Meta.Store.{MetadataType, fs_upload_ready, fs_download_ready}
use librtcdc.Meta.Store as Store
use librtcdc.Meta.Database.{strcpy}
use librtcdc.Transfer.{local_path_size}
use librtcdc.Sdp.Splitting.{Glib}
use librtcdc.Sdp.{Local, Agent, Party, rtcdc_generate_offer_sdp}
use librtcdc.Candidates.{hear}
use librtcdc.Protocol.{typed}
use librtcdc.Client.{Reason, request}
use librtcdc.Client.Calls.{Session, local_repo}

-- The offerer when rtcdc_loop starts: the result of rtcdc_parse_offer_sdp, the candidates that libnice was
-- handed, the peer, and the path in rtcdc_info.
pub record Offerer (C : Type 0) : Type 0 where
  pub result : ℤ
  pub handed : List (List C)
  pub party : Party
  pub local_repo_path : Bytes

module _ {E C : Type 0} (json : Json E) (glib : Glib) (agent : Agent C) where
  -- NULL for the description is not set.
  abbrev pub transfer_message : MetadataType → Session → Option Bytes → Bytes → E
  transfer_message type s sdp candidates =
      json.put
        (put_text json (put_text json (typed json type) session_id s.session_id) client_sdp sdp)
        client_candidates (text candidates)

  unfoldable pub finish_transfer : Local → Option Bytes → Party → Option (Option (Offerer C))
  finish_transfer l none p = some none
  finish_transfer l (some answer) p = do
    msg ← json.loads answer
    candidates ← text_of json msg fs_candidates
    heard ← hear glib agent l (text_of json msg fs_sdp) candidates p
    path ← strcpy local_path_size local_repo
    some (
        some
          (record { result = heard.0; handed = heard.1; party = heard.2; local_repo_path = path }))

  -- For the peer that rtcdc_create_peer_connection has made, and the candidates that on_candidate has
  -- collected when the message is put together.
  unfoldable pub sy_transfer :
      (type answer : MetadataType)
      → ℕ
      → Local
      → (candidates : Bytes) → List Reason
      → Session
      → Party
      → Option (Option (Offerer C))
  sy_transfer type answer wsi l candidates rs s p = do
    offered ← rtcdc_generate_offer_sdp glib l p
    reply ←
        request json wsi type answer (json.dumps (transfer_message type s offered.0 candidates)) rs
    finish_transfer l reply.0 offered.1

  unfoldable pub sy_upload :
      ℕ → Local → (candidates : Bytes) → List Reason → Session → Party → Option (Option (Offerer C))
  sy_upload = sy_transfer Store.sy_upload fs_upload_ready

  unfoldable pub sy_download :
      ℕ → Local → (candidates : Bytes) → List Reason → Session → Party → Option (Option (Offerer C))
  sy_download = sy_transfer Store.sy_download fs_download_ready
