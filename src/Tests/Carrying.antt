-- ===== src/Tests/Carrying.antt =====
-- Two peers on which uploads and downloads run.
use librtcdc.Base.{some, none, [], codes}
use librtcdc.Peer.{Peer}
use librtcdc.Callbacks.{Side}
use librtcdc.Callbacks.Address
use librtcdc.Tests.Fixtures.{answerer}
use librtcdc.Tests.Copying.{difference, nothing_yet}

-- The struct of the side that has the files, and of the side that takes them.
abbrev holder : Side
holder = record {
  address = 40000;
  info = record {
    local_repo_path = codes "/repo/";
    sy_session_diff = difference;
    data_channel = none;
  };
  receiver = nothing_yet;
  jobs = [];
}

abbrev taker : Side
taker = record {
  address = 70000;
  info = record { local_repo_path = codes "/served/"; sy_session_diff = []; data_channel = none };
  receiver = nothing_yet;
  jobs = [];
}

abbrev upload_server : Peer
upload_server = record answerer {
  on_channel = some Address.upload_fs_on_channel_at;
  user_data = 70000;
}

abbrev download_client : Peer
download_client = record answerer {
  on_channel = some Address.download_client_on_channel_at;
  user_data = 70000;
}
