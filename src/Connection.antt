-- ===== src/Connection.antt =====
-- The life of a peer connection: rtcdc_create_peer_connection, rtcdc_destroy_peer_connection and
-- rtcdc_destroy_data_channel of src/rtcdc.c.
pub mod Blocks
pub mod Frees
use librtcdc.Base.{
  ℕ, zero, suc, Bool, true, false, not, Option, none, some, List, [], ◌∷◌, ◌++◌, Bytes,
  if◌then◌else◌, ltb, get_elem?, replicate, ◌>>=◌,
}
use librtcdc.Peer.{Role, unknown, Channel, max_channel_num}
use librtcdc.Lifecycle.{Globals, Outcomes, Link, destroy_rtcdc_transport}

-- struct rtcdc_peer_connection, as far as these functions write and read it.
pub record PeerConnection : Type 0 where
  pub stun_server : Option Bytes
  pub stun_port : ℕ  -- uint16_t
  pub on_channel : Option ℕ
  pub on_candidate : Option ℕ
  pub on_connect : Option ℕ
  pub user_data : ℕ
  pub link : Link
  pub channels : List (Option Channel)

-- The arguments of rtcdc_create_peer_connection.
pub record Arguments : Type 0 where
  pub on_channel : Option ℕ
  pub on_candidate : Option ℕ
  pub on_connect : Option ℕ
  pub stun_server : Option Bytes
  pub stun_port : ℕ
  pub user_data : ℕ

-- From calloc on, with what strdup(buf) copies if there is a STUN server.
unfoldable pub fill : Bool → Arguments → Option Bytes → Option PeerConnection
fill allocated a copied =
    if not allocated
    then none
    else some (record {
      stun_server = copied;
      stun_port = if ltb 0 a.stun_port then a.stun_port else 3478;
      on_channel = a.on_channel;
      on_candidate = a.on_candidate;
      on_connect = a.on_connect;
      user_data = a.user_data;
      link = record { transport = false; role = unknown; initialized = false };
      channels = replicate max_channel_num none;
    })

-- Without a lookup: strdup of a buffer that was never written is `none`.
unfoldable pub without_lookup : Bool → Arguments → Option (Option PeerConnection)
without_lookup allocated a = if not allocated then some none else none

-- `resolve` is the address that getaddrinfo and inet_ntop give for a name, and `allocated` whether
-- calloc succeeds; `some none` is the NULL that is returned.
unfoldable pub create_with :
    (Bytes → Option Bytes) → Bool → Arguments → Option Bytes → Option (Option PeerConnection)
create_with resolve allocated a none = some (fill allocated a none)
create_with resolve allocated a (some []) = without_lookup allocated a
create_with resolve allocated a (some (c ∷ name)) = elim (resolve (c ∷ name)) [
  | none ↦ some none
  | some address ↦ some (fill allocated a (some address))
]

unfoldable pub rtcdc_create_peer_connection :
    (Bytes → Option Bytes) → Bool → Arguments → Option (Option PeerConnection)
rtcdc_create_peer_connection resolve allocated a = create_with resolve allocated a a.stun_server

-- What free is called with; a text of a channel by the slot of the channel.
pub data Block : Type 0 where
  stun_text : Block
  label_text protocol_text : ℕ → Block
  peer_block : Block

-- if (text) free(text)
unfoldable pub free_if : Option Bytes → Block → List Block
free_if none b = []
free_if (some text) b = b ∷ []

-- Of the channel in slot `i`.
unfoldable pub rtcdc_destroy_data_channel : ℕ → Option Channel → List Block
rtcdc_destroy_data_channel i none = []
rtcdc_destroy_data_channel i (some c) =
    free_if c.label (label_text i) ++ free_if c.protocol (protocol_text i)

-- The loop over the slots from `i` on, with the number of rounds that are left; a read behind the table
-- is `none`.
unfoldable pub destroy_channels : ℕ → ℕ → List (Option Channel) → Option (List Block)
destroy_channels zero i channels = some []
destroy_channels (suc rounds) i channels = do
  slot ← get_elem? channels i
  rest ← destroy_channels rounds (suc i) channels
  some (rtcdc_destroy_data_channel i slot ++ rest)

-- The calls of free in order, and the global variables.
unfoldable pub rtcdc_destroy_peer_connection :
    Outcomes → Option PeerConnection → Globals → Option (List Block × Globals)
rtcdc_destroy_peer_connection o none g = some ([], g)
rtcdc_destroy_peer_connection o (some c) g = do
  texts ← destroy_channels max_channel_num 0 c.channels
  some (
    free_if c.stun_server stun_text ++ (texts ++ peer_block ∷ []),
    if c.link.transport then destroy_rtcdc_transport o g else g,
  )
