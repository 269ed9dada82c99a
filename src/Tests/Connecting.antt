-- ===== src/Tests/Connecting.antt =====
-- An upload that connects.
use librtcdc.Base.{true, none, some, List, [], ◌∷◌, codes}
use librtcdc.Meta.Store.{MetadataType, SessionDoc, SessionInfo, FileServer, UriInfo}
use librtcdc.Meta.Store as Store
use librtcdc.Meta.Database.{Driver, Server}
use librtcdc.Client.Calls.{Session}
use librtcdc.FileServer.{Outside}
use librtcdc.FileServer.Transfers.{Side}
use librtcdc.Tests.Objects.{Object}
use librtcdc.Tests.Serving.{lib, serving, info}
use librtcdc.Tests.Serving.{session as stored}
use librtcdc.Tests.Transports.{in_use}
use librtcdc.Tests.Collecting.{two_lines, two_text}
use librtcdc.Tests.Agreeing.{ours, theirs, party}
use librtcdc.Tests.Talking.{talking}

abbrev talker : Driver Object (List (SessionDoc Object)) (List FileServer) (List UriInfo)
talker = record lib { json = talking }

abbrev client_side : Side
client_side = record {
  own = ours;
  party = party;
  globals = in_use;
  count = 0;
  lines = two_lines;
  candidates = two_text;
}

abbrev host_side : Side
host_side = record client_side { own = theirs }

abbrev outside : Outside
outside = record {
  disk = record { opendir = λ path. none; open_read = λ path. none };
  mkdir = λ path. true;
  own = theirs;
  party = party;
  candidates = two_text;
}

abbrev session : Session
session = record {
  session_id = some (codes "5f");
  uri_code = none;
  local_repo_path = none;
  repo_name = [];
}

abbrev standing : SessionDoc Object
standing = record stored { session_id = codes "5f"; repo_name = codes "hhh" }

abbrev stored_info : SessionInfo
stored_info = record info { session_id = codes "5f"; repo_name = codes "hhh" }

abbrev meta : Server (List (SessionDoc Object)) (List FileServer) (List UriInfo)
meta = record serving { sessions = standing ∷ [] }
