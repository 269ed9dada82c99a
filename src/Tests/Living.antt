-- ===== src/Tests/Living.antt =====
-- A peer connection from its creation to its destruction.
use librtcdc.Base.{◌≡◌, refl, true, Option, some, none, List, ◌∷◌, codes, Bytes, replicate}
use librtcdc.Peer.{Channel, zeroed, client}
use librtcdc.Lifecycle.{Globals}
use librtcdc.Lifecycle.Counts.{IsSame}
use librtcdc.Connection.{
  Arguments, PeerConnection, Block, label_text, protocol_text, fill, create_with,
  rtcdc_create_peer_connection, rtcdc_destroy_peer_connection,
}
use librtcdc.Connection.Blocks.{frees_of, held}
use librtcdc.Connection.Frees.{connection_life}
use librtcdc.Tests.Transports.{all_well, fresh, alone, in_use, linked, fresh-IsCounted, all_created}

abbrev looked_up : Bytes → Option Bytes
looked_up name = some (codes "127.0.0.1")

abbrev arguments : Arguments
arguments = record {
  on_channel = some 8;
  on_candidate = some 20;
  on_connect = some 21;
  stun_server = some (codes "stun.example");
  stun_port = 0;
  user_data = 70000;
}

abbrev made : PeerConnection
made = record {
  stun_server = some (codes "127.0.0.1");
  stun_port = 3478;
  on_channel = some 8;
  on_candidate = some 20;
  on_connect = some 21;
  user_data = 70000;
  link = alone;
  channels = replicate 128 none;
}

-- A channel with a label in the first slot.
abbrev one_channel : List (Option Channel)
one_channel = some (record zeroed { label = some (codes "Upload Channel") }) ∷ replicate 127 none

created : rtcdc_create_peer_connection looked_up true arguments ≡ some (some made)
unfolding rtcdc_create_peer_connection create_with fill
created = refl

abbrev used : PeerConnection
used = record made { link = linked; channels = one_channel }

connection_life_example :
    (blocks : List Block) × (after : Globals) × (rtcdc_destroy_peer_connection all_well
        (some used)
        in_use
      ≡ some (blocks, after))
    × IsSame after fresh
    × ((b : Block) → frees_of b blocks ≡ held used b)
connection_life_example =
    connection_life looked_up true arguments made 0 all_well all_well client linked fresh in_use
      one_channel created fresh-IsCounted all_created refl

-- The label is held, and no protocol.
held_label : held used (label_text 0) ≡ 1
unfolding held
held_label = refl

held_protocol : held used (protocol_text 0) ≡ 0
unfolding held
held_protocol = refl
