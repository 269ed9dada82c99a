-- ===== src/Client.antt =====
-- The connection of a client to the metadata server: callback_client of APIs/cli/sy.c, and the loop in which
-- each call waits for its answer.
pub mod Calls
pub mod Offers
pub mod Waiting
pub mod Sessions
use librtcdc.Base.{
  ℕ, Bool, true, false, Option, none, some, List, [], ◌∷◌, ◌++◌, Bytes, if◌then◌else◌, ◌==◌, ◌||◌,
  ◌>>=◌,
}
use librtcdc.Meta.Json.{Json, number_of, metadata_type}
use librtcdc.Meta.Store.{
  MetadataType, code, fs_upload_ready, fs_download_ready, sy_init, sy_init_ok, sy_connect,
  sy_connect_ok, sy_status, sy_status_ok, sy_upload, sy_download, sy_cleanup, sy_cleanup_ok,
}
use librtcdc.Meta.Database.{WriteData, strcpy}
use librtcdc.Meta.Server.{write_data_size}

-- The reasons that callback_client knows; RECEIVE comes with the text.
pub data Reason : Type 0 where
  client_established client_connection_error closed client_writeable other_reason : Reason
  client_receive : Bytes → Reason

-- `write_data`, which the call and the callback share, and what was written, each with its target.
pub record Connection : Type 0 where
  pub write_data : WriteData
  pub written : List (ℕ × Bytes)

abbrev pub same_type : MetadataType → MetadataType → Bool
same_type a b = code a == code b

-- The types of data that the writeable callback sends.
unfoldable pub is_request : MetadataType → Bool
is_request t =
    same_type t sy_init
    || same_type t sy_connect
    || same_type t sy_status
    || same_type t sy_upload
    || same_type t sy_download
    || same_type t sy_cleanup

-- The switch on the type of a message: the answers that are kept.
unfoldable pub answer_type : ℕ → Option MetadataType
answer_type n =
    if n == code sy_init_ok
    then some sy_init_ok
    else if n == code sy_connect_ok
    then some sy_connect_ok
    else if n == code sy_status_ok
    then some sy_status_ok
    else if n == code fs_upload_ready
    then some fs_upload_ready
    else if n == code fs_download_ready
    then some fs_download_ready
    else if n == code sy_cleanup_ok
    then some sy_cleanup_ok
    else none

-- The flag says that the callback returns -1.
unfoldable pub keep_answer : Bytes → Option MetadataType → Connection → Option (Bool × Connection)
keep_answer raw none c = some (false, c)
keep_answer raw (some type) c = do
  copied ← strcpy write_data_size raw
  some (true, record c { write_data = record { target_wsi = 0; type = type; content = copied } })

unfoldable pub write_request : Connection → Connection
write_request c =
    if is_request c.write_data.type
    then record c { written = c.written ++ (c.write_data.target_wsi, c.write_data.content) ∷ [] }
    else c

abbrev pub answer_if : Bool × Connection → Option Bytes × Connection
answer_if (false, c) = (none, c)
answer_if (true, c) = (some c.write_data.content, c)

module _ {E : Type 0} (json : Json E) where
  unfoldable pub callback_client : Reason → Connection → Option (Bool × Connection)
  callback_client client_established c = some (false, c)
  callback_client client_connection_error c = some (false, c)
  callback_client closed c = some (false, c)
  callback_client client_writeable c = some (false, write_request c)
  callback_client other_reason c = some (false, c)
  callback_client (client_receive raw) c = do
    msg ← json.loads raw
    type ← number_of json msg metadata_type
    keep_answer raw (answer_type type) c

  -- The loop `while(1)` of a call, which looks at `write_data` between the callbacks that the service thread
  -- runs: did it end with them, and the connection then.
  unfoldable pub wait_for : MetadataType → List Reason → Connection → Option (Bool × Connection)
  wait_for type [] c = some (same_type c.write_data.type type, c)
  wait_for type (r ∷ rs) c =
      let step = callback_client r c in
      if same_type c.write_data.type type
      then some (true, c)
      else (do next ← step; wait_for type rs next.1)

  -- A call from strcpy to the end of its loop: the answer, if it came.
  unfoldable pub request :
      (wsi : ℕ) (type answer : MetadataType)
      → Bytes
      → List Reason
      → Option (Option Bytes × Connection)
  request wsi type answer sent rs = do
    copied ← strcpy write_data_size sent
    waited ← wait_for answer rs (record {
      write_data = record { target_wsi = wsi; type = type; content = copied };
      written = [];
    })
    some (answer_if waited)
