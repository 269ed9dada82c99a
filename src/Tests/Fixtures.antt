-- ===== src/Tests/Fixtures.antt =====
-- Two peers at the start, and an environment in which every call succeeds and callbacks do nothing.
use librtcdc.Base.{ℕ, zero, suc, refl, true, none, some, [], All, replicate, codes, Bytes}
use librtcdc.Peer.{Sctp, Peer, Env, client, server, max_channel_num}
use librtcdc.Dcep.Invariant.{IsSlot, IsTable}
use librtcdc.Channel.{Request}

abbrev pub quiet : Env
quiet = record { sendv = λ sid ppid msg. true; calloc = λ size. true; callback = λ e p. p }

abbrev pub connected_sctp : ℕ → Sctp
connected_sctp cursor = record {
  handshake_done = true;
  deferred_messages = true;
  stream_cursor = cursor;
  local_port = 5000;
  remote_port = 5000;
}

abbrev pub offerer : Peer
offerer = record {
  transport = some (connected_sctp 0);
  role = client;
  channels = replicate max_channel_num none;
  on_channel = none;
  user_data = 0;
  events = [];
}

abbrev pub answerer : Peer
answerer = record {
  transport = some (connected_sctp 1);
  role = server;
  channels = replicate max_channel_num none;
  on_channel = some 7;
  user_data = 3;
  events = [];
}

abbrev pub upload_label : Bytes
upload_label = codes "Upload Channel"

abbrev pub upload_request : Request
upload_request = record {
  label = some upload_label;
  protocol = some [];
  on_open = some 1;
  on_message = some 2;
  on_close = none;
  user_data = 9;
}

empty_slots : (n : ℕ) → All IsSlot (replicate n none)
empty_slots zero = tt
empty_slots (suc n) = (tt, empty_slots n)

pub offerer-IsTable : IsTable offerer
offerer-IsTable = record { size = refl; slots = empty_slots 128 }

pub answerer-IsTable : IsTable answerer
answerer-IsTable = record { size = refl; slots = empty_slots 128 }
