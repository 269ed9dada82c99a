-- ===== src/FileServer/Connecting.antt =====
-- sy_upload and sy_download of the client against SY_UPLOAD and SY_DOWNLOAD of the file server.
use librtcdc.Base.{ℕ, ◌<◌, ◌≡◌, true, false, some, List, ◌++◌, Bytes, codes, All, length}
use librtcdc.Peer.{client}
use librtcdc.Transfer.{local_path_size}
use librtcdc.Meta.Json.{IsJson}
use librtcdc.Meta.Store.{MetadataType, fs_download_ready, SessionDoc, SessionInfo, to_int32}
use librtcdc.Meta.Store as Store
use librtcdc.Meta.Database.{WriteData, Driver, Server, has_id, session_info}
use librtcdc.Meta.Server.{write_data_size}
use librtcdc.Meta.Sync.{offer}
use librtcdc.Sdp.Splitting.{Glib, IsGlib}
use librtcdc.Sdp.{Agent}
use librtcdc.Sdp.Agreement.{handed}
use librtcdc.Client.{Reason}
use librtcdc.Client.Calls.{Session, local_repo}
use librtcdc.Client.Offers.{Offerer, transfer_message, sy_upload}
use librtcdc.Client.Waiting.{IsQuiet}
use librtcdc.FileServer.{Host, Outside, warehouse}
use librtcdc.FileServer.Transfers.{each_candidate, Side, sdp_of, joined, answer_to}

module _ {E S F U C : Type 0} (lib : Driver E S F U) (json_laws : IsJson lib.json) (glib : Glib)
    (laws : IsGlib glib) (agent : Agent C) where
  -- The client, when the answer has been heard.
  abbrev pub offerer : Side → Side → Offerer C
  offerer s t = record {
    result = agent.parse_remote_sdp (handed glib t.own false);
    handed = each_candidate glib laws agent t.lines;
    party = joined lib json_laws glib laws agent client s t;
    local_repo_path = local_repo;
  }

  -- The answer arrives after callbacks that keep none, and the messages fit and are read back as they
  -- were written.
  pub record IsDelivered (type answer : MetadataType) (id : Bytes) (s t : Side) (session : Session)
      (before : List Reason) : Type 0 where
    pub asked :
        length (
          lib.json.dumps (
            transfer_message lib.json glib agent type session
              (some (sdp_of lib json_laws glib laws agent true s))
              s.candidates))
        < write_data_size
    pub fits :
        length (lib.json.dumps (answer_to lib json_laws glib laws agent answer id t))
        < write_data_size
    pub read :
        lib.json.loads (lib.json.dumps (answer_to lib json_laws glib laws agent answer id t))
        ≡ some (answer_to lib json_laws glib laws agent answer id t)
    pub quiet : All (IsQuiet lib.json) before

  -- The file server has its write data, the answer is put together by side `t`, and the path of the
  -- repository fits.
  pub record IsHost (o : Outside) (repo : Bytes) (t : Side) (m : Host C) : Type 0 where
    pub own : o.own ≡ t.own
    pub party : o.party ≡ t.party
    pub candidates : o.candidates ≡ t.candidates
    pub write_data : WriteData
    pub established : m.write_data ≡ some write_data
    pub path : length (warehouse ++ (repo ++ codes "/")) < local_path_size

  -- What the client writes for its upload.
  abbrev pub asked_by : Side → Session → E
  asked_by s session =
      transfer_message lib.json glib agent Store.sy_upload session
        (some (sdp_of lib json_laws glib laws agent true s)) s.candidates

  -- What the metadata server sends on.
  abbrev pub offered_by : Side → (id repo : Bytes) → E
  offered_by s id repo =
      offer lib Store.sy_upload id repo (sdp_of lib json_laws glib laws agent true s) s.candidates

  -- The session of the client stands in the database, which can update it, and the offer fits.
  pub record IsStanding (meta : Server S F U) (asker : ℕ) (d : SessionDoc E) (info : SessionInfo)
      (id : Bytes) (s : Side) (session : Session) (after : S) : Type 0 where
    pub known : session.session_id ≡ some id
    pub found : lib.sessions.find (has_id lib id) meta.sessions ≡ some d
    pub read : session_info lib id d ≡ some info
    pub updates :
        lib.sessions.update
          (has_id lib id)
          (λ e. record e { client_wsi = to_int32 asker })
          meta.sessions
        ≡ some after
    pub fits : length (lib.json.dumps (offered_by s id info.repo_name)) < write_data_size
