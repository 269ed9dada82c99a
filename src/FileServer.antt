-- ===== src/FileServer.antt =====
-- callback_fileserver of APIs/fs/file_server.c: one function for each metadata type, and the reasons for a
-- callback. What json_unpack does not find, a text that does not fit its buffer, and NULL are `none`.
pub mod Answering
pub mod Messages
pub mod Transfers
pub mod Connecting
use librtcdc.Base.{
  ℕ, Bool, true, false, Option, none, some, List, [], ◌∷◌, ◌++◌, Bytes, codes, if◌then◌else◌, ◌==◌,
  ◌>>=◌, ℤ, pos, negsuc,
}
use librtcdc.Transfer.{local_path_size}
use librtcdc.Checksum.{Md5}
use librtcdc.Meta.Json.{
  Json, text, array, text_of, number_of, array_of, put_text, metadata_type, session_id, repo_name,
  files, diff, fs_checksum, client_sdp, client_candidates, fs_sdp, fs_candidates,
}
use librtcdc.Meta.Store.{
  MetadataType, code, fs_register, fs_init_ok, fs_status_ok, fs_upload_ready, fs_download_ready,
  sy_init, sy_status, sy_upload, sy_download,
}
use librtcdc.Meta.Database.{WriteData, strcpy}
use librtcdc.Meta.Server.{write_data_size}
use librtcdc.Sdp.Splitting.{Glib}
use librtcdc.Sdp.{Local, Agent, Party, rtcdc_generate_offer_sdp}
use librtcdc.Candidates.{hear}
use librtcdc.Protocol.{Disk, path_size, typed, listed_files, SessionDiff, session_diff}
use librtcdc.Client.{
  Reason, client_established, client_connection_error, closed, client_writeable, other_reason,
  client_receive,
}

-- "/home/uniray/warehouse/", WAREHOUSE_PATH
abbrev pub warehouse : Bytes
warehouse = codes "/home/uniray/warehouse/"

-- An answerer whose rtcdc_loop is queued: the result of rtcdc_parse_offer_sdp, the candidates that libnice
-- was handed, the peer, and what is put into rtcdc_info.
pub record Answerer (C : Type 0) : Type 0 where
  pub result : ℤ
  pub handed : List (List C)
  pub party : Party
  pub local_repo_path : Bytes
  pub session_diff : Option SessionDiff

-- The file server: its write data, or NULL; the connections for which a writeable callback was asked;
-- what was written, each with its target; the directories for which mkdir was called; the answerers; and
-- fileserver_exit.
pub record Host (C : Type 0) : Type 0 where
  pub write_data : Option WriteData
  pub on_writable : List ℕ
  pub written : List (ℕ × Bytes)
  pub made : List Bytes
  pub works : List (Answerer C)
  pub fileserver_exit : ℤ

-- What a callback gets from elsewhere: the disk and the result of mkdir; and for an offer the peer of
-- rtcdc_create_peer_connection, what the libraries give it, and the candidates that it has collected when
-- the answer is put together.
pub record Outside : Type 0 where
  pub disk : Disk
  pub mkdir : Bytes → Bool
  pub own : Local
  pub party : Party
  pub candidates : Bytes

-- The type of the answer to SY_INIT, by the success of mkdir.
abbrev pub repo_type : Bool → MetadataType
repo_type true = fs_init_ok
repo_type false = fs_init_ok

-- The write data is filled in, and a writeable callback is asked for.
unfoldable pub respond : {C : Type 0} → ℕ → MetadataType → Bytes → Host C → Option (Host C)
respond wsi type answer m = do
  w ← m.write_data
  copied ← strcpy write_data_size answer
  some (record m {
    write_data = some (record { target_wsi = wsi; type = type; content = copied });
    on_writable = m.on_writable ++ wsi ∷ [];
  })

-- The data is written if it is not "". Then memset clears its first 100 bytes, so that it is "".
unfoldable pub write_answer : {C : Type 0} → WriteData → Bytes → Host C → Host C
write_answer w [] m = m
write_answer w (c ∷ content) m = record m {
  written = m.written ++ (w.target_wsi, c ∷ content) ∷ [];
  write_data = some (record w { content = [] });
}

unfoldable pub on_writeable_host : {C : Type 0} → Host C → Option (Host C)
on_writeable_host m = do w ← m.write_data; some (write_answer w w.content m)

module _ {E : Type 0} (json : Json E) where
  -- With the calloc of the write data.
  unfoldable pub on_established : {C : Type 0} → ℕ → Host C → Option (Host C)
  on_established wsi m =
      respond wsi fs_register (json.dumps (typed json fs_register)) (record m {
        write_data = some (record { target_wsi = 0; type = fs_register; content = [] });
      })

  abbrev pub init_answer : Bool → Bytes → E
  init_answer success id = json.put (typed json (repo_type success)) session_id (text id)

  unfoldable pub on_init : {C : Type 0} → (Bytes → Bool) → ℕ → E → Host C → Option (Host C)
  on_init mkdir wsi msg m = do
    repo ← text_of json msg repo_name
    id ← text_of json msg session_id
    path ← strcpy path_size (warehouse ++ repo)
    respond wsi (repo_type (mkdir path)) (json.dumps (init_answer (mkdir path) id))
        (record m { made = m.made ++ path ∷ [] })

  unfoldable pub on_status : {C D : Type 0} → Md5 D → Disk → ℕ → E → Host C → Option (Host C)
  on_status md5 disk wsi msg m = do
    repo ← text_of json msg repo_name
    id ← text_of json msg session_id
    path ← strcpy path_size (warehouse ++ repo)
    es ← listed_files json md5 disk.open_read fs_checksum (path ++ codes "/") (disk.opendir path)
    respond wsi fs_status_ok
        (json.dumps
          (json.put (json.put (typed json fs_status_ok) session_id (text id)) files (array es)))
        m

  abbrev pub ready_answer : MetadataType → Bytes → Option Bytes → Bytes → E
  ready_answer type id sdp candidates =
      json.put (put_text json (json.put (typed json type) session_id (text id)) fs_sdp sdp)
        fs_candidates (text candidates)

  module _ {C : Type 0} (glib : Glib) (agent : Agent C) where
    -- SY_UPLOAD, and with a difference SY_DOWNLOAD: the offer is heard and answered, and the loop of the
    -- peer is queued.
    unfoldable pub answer_offer :
        MetadataType → Option SessionDiff → Outside → ℕ → E → Host C → Option (Host C)
    answer_offer type compared o wsi msg m = do
      sdp ← text_of json msg client_sdp
      candidates ← text_of json msg client_candidates
      repo ← text_of json msg repo_name
      id ← text_of json msg session_id
      heard ← hear glib agent o.own (some sdp) candidates o.party
      answer ← rtcdc_generate_offer_sdp glib o.own heard.2
      answered ← respond wsi type (json.dumps (ready_answer type id answer.0 o.candidates)) m
      path ← strcpy local_path_size (warehouse ++ (repo ++ codes "/"))
      some (record answered {
        works =
            answered.works
            ++ record {
              result = heard.0;
              handed = heard.1;
              party = answer.1;
              local_repo_path = path;
              session_diff = compared;
            }
              ∷ [];
      })

    unfoldable pub on_upload : Outside → ℕ → E → Host C → Option (Host C)
    on_upload = answer_offer fs_upload_ready none

    unfoldable pub on_download : Outside → ℕ → E → Host C → Option (Host C)
    on_download o wsi msg m = do
      compared ← session_diff json (array_of json msg diff)
      answer_offer fs_download_ready (some compared) o wsi msg m

    -- The switch on the metadata type. FS_REGISTER_OK is only printed.
    unfoldable pub on_request :
        {D : Type 0} → Md5 D → Outside → ℕ → E → ℕ → Host C → Option (Host C)
    on_request md5 o wsi msg type m =
        if type == code sy_init
        then on_init o.mkdir wsi msg m
        else if type == code sy_status
        then on_status md5 o.disk wsi msg m
        else if type == code sy_upload
        then on_upload o wsi msg m
        else if type == code sy_download
        then on_download o wsi msg m
        else some m

    unfoldable pub callback_fileserver :
        {D : Type 0} → Md5 D → Outside → ℕ → Reason → Host C → Option (Host C)
    callback_fileserver md5 o wsi client_established m = on_established wsi m
    callback_fileserver md5 o wsi client_connection_error m = some m
    callback_fileserver md5 o wsi closed m = some (record m { fileserver_exit = negsuc 0 })
    callback_fileserver md5 o wsi client_writeable m = on_writeable_host m
    callback_fileserver md5 o wsi other_reason m = some m
    callback_fileserver md5 o wsi (client_receive raw) m = do
      msg ← json.loads raw
      type ← number_of json msg metadata_type
      on_request md5 o wsi msg type m
