-- ===== src/Peer.antt =====
-- The structures of src/rtcdc.h (data channel, peer connection) and of src/sctp.h (transport), as far
-- as the channel layer uses them, and `send_sctp_message` of src/sctp.c.
pub mod Slots
use librtcdc.Base.{
  ℕ, zero, suc, ◌+◌, Bool, true, false, not, Option, none, some, List, [], ◌∷◌, ◌++◌, Bytes,
  if◌then◌else◌, ◌==◌, replicate, set,
}

-- RTCDC_CHANNEL_STATE_*
pub data ChannelState : Type 0 where
  closed connecting connected : ChannelState

-- RTCDC_DATATYPE_*
pub data Datatype : Type 0 where
  string binary empty : Datatype

-- RTCDC_PEER_ROLE_*
pub data Role : Type 0 where
  unknown client server : Role

-- An `int` result: 0, or -1.
pub data Status : Type 0 where
  success failure : Status

-- struct rtcdc_data_channel. A function pointer is a number or NULL; `sctp` is left out, since it is
-- always the transport of the peer that holds the channel.
pub record Channel : Type 0 where
  pub type : ℕ  -- uint8_t
  pub priority : ℕ  -- uint16_t
  pub rtx : ℕ  -- uint32_t
  pub lifetime : ℕ  -- uint32_t
  pub label : Option Bytes
  pub protocol : Option Bytes
  pub state : ChannelState
  pub sid : ℕ  -- uint16_t
  pub on_open : Option ℕ
  pub on_message : Option ℕ
  pub on_close : Option ℕ
  pub user_data : ℕ

-- calloc(1, sizeof *ch)
abbrev pub zeroed : Channel
zeroed = record {
  type = 0;
  priority = 0;
  rtx = 0;
  lifetime = 0;
  label = none;
  protocol = none;
  state = closed;
  sid = 0;
  on_open = none;
  on_message = none;
  on_close = none;
  user_data = 0;
}

-- struct sctp_transport
pub record Sctp : Type 0 where
  pub handshake_done : Bool
  pub deferred_messages : Bool  -- the queue is not NULL
  pub stream_cursor : ℕ
  pub local_port : ℕ
  pub remote_port : ℕ

-- What leaves the library: a message that usrsctp_sendv accepted, and the calls of the application's
-- callbacks, with the callback, the slot of the channel and the other arguments.
pub data Event : Type 0 where
  sendv : (sid ppid : ℕ) → Option Bytes → Event
  on_channel : (callback slot user_data : ℕ) → Event
  on_open : (callback slot user_data : ℕ) → Event
  on_message : (callback slot : ℕ) → Datatype → Bytes → (user_data : ℕ) → Event

-- struct rtcdc_peer_connection; `events` is the history of what left the library.
pub record Peer : Type 0 where
  pub transport : Option Sctp
  pub role : Role
  pub channels : List (Option Channel)
  pub on_channel : Option ℕ
  pub user_data : ℕ
  pub events : List Event

-- RTCDC_MAX_CHANNEL_NUM
abbrev pub max_channel_num : ℕ
max_channel_num = 128

-- What the library calls and does not implement: usrsctp_sendv (does it accept the message?), calloc
-- (does it give that many bytes?), and what the application does in its callbacks.
pub record Env : Type 0 where
  pub sendv : (sid ppid : ℕ) → Option Bytes → Bool
  pub calloc : ℕ → Bool
  pub callback : Event → Peer → Peer

-- A callback is called, and does to the peer what the application wants.
unfoldable pub notify : Env → Event → Peer → Peer
notify env e p = env.callback e (record p { events = p.events ++ e ∷ [] })

-- if (callback) callback(...)
unfoldable pub notify_if : Env → Option ℕ → (ℕ → Event) → Peer → Peer
notify_if env none e p = p
notify_if env (some f) e p = notify env (e f) p

-- The loops over `peer->channels` that stop at the first NULL: the index where they stop.
unfoldable pub first_free : List (Option Channel) → ℕ
first_free [] = 0
first_free (none ∷ rest) = 0
first_free (some c ∷ rest) = suc (first_free rest)

-- The loops that stop at the first channel with the stream id.
unfoldable pub find_sid : ℕ → List (Option Channel) → Option (ℕ × Channel)
find_sid sid [] = none
find_sid sid (none ∷ rest) = elim (find_sid sid rest) [
  | none ↦ none
  | some (i, c) ↦ some (suc i, c)
]
find_sid sid (some c ∷ rest) =
    let later : Option (ℕ × Channel) = elim (find_sid sid rest) [
      | none ↦ none
      | some (i, d) ↦ some (suc i, d)
    ] in
    if c.sid == sid then some (0, c) else later

unfoldable pub send_sctp_message : Env → Peer → Option Bytes → (sid ppid : ℕ) → Status × Peer
send_sctp_message env p msg sid ppid = elim p.transport [
  | none ↦ (failure, p)
  | some sctp ↦
      if not sctp.deferred_messages
      then (failure, p)
      else if sctp.handshake_done
      then (if env.sendv sid ppid msg
          then (success, record p { events = p.events ++ sendv sid ppid msg ∷ [] })
          else (failure, p))
      else (success, p)
]
