-- ===== src/Dcep/Invariant.antt =====
-- The channel table of a peer, under everything that can happen to it.
use librtcdc.Base.{
  ℕ, zero, suc, ◌<◌, ◌≡◌, ◌≢◌, Option, none, some, List, [], ◌∷◌, ◌++◌, Bytes, All, arith, length,
  length-set, set, ◌⊎◌,
}
use librtcdc.Peer.{
  Channel, ChannelState, string, binary, empty, Event, Peer, Env, max_channel_num, first_free,
  find_sid, send_sctp_message,
}
use librtcdc.Peer.Slots.{first_free-le-length, find_sid_found}
use librtcdc.Dcep.{
  allocate_new_data_channel, install, answer_open, accept_channel, handle_control,
  handle_rtcdc_open_request, handle_rtcdc_open_ack, handle_rtcdc_data, handle_rtcdc_message,
}
use librtcdc.Dcep.RoundTrip.{IsSized}
use librtcdc.Dcep.Wire.{OpenMessage, read_open}

-- The fields are in the range of their C types, and of the two ways to give up on a message, rtx and
-- lifetime, at most one is set.
pub record IsChannel (c : Channel) : Type 0 where
  pub type : c.type < 256
  pub priority : c.priority < 65536
  pub rtx : c.rtx < 4294967296
  pub lifetime : c.lifetime < 4294967296
  pub sid : c.sid < 65536
  pub one_limit : (c.rtx ≡ 0) ⊎ (c.lifetime ≡ 0)

abbrev pub IsSlot : Option Channel → Type 0
IsSlot none = Unit
IsSlot (some c) = IsChannel c

pub record IsTable (p : Peer) : Type 0 where
  pub size : length p.channels ≡ max_channel_num
  pub slots : All IsSlot p.channels

-- A property of peers that says at least that the table is in order, and that the elementary changes
-- keep: an event, an entry of the table, and what the application does in a callback.
pub record IsKept (env : Env) (P : Peer → Type 0) : Type 0 where
  pub table : (p : Peer) → P p → IsTable p
  pub event : (e : Event) (p : Peer) → P p → P (record p { events = p.events ++ e ∷ [] })
  pub entry :
      (i : ℕ) (o : Option Channel) (p : Peer)
      → i < max_channel_num
      → IsSlot o
      → P p
      → P (install i o p)
  pub callback : (e : Event) (p : Peer) → P p → P (env.callback e p)

All-set :
    (cs : List (Option Channel)) (i : ℕ) (o : Option Channel)
    → All IsSlot cs
    → IsSlot o
    → All IsSlot (set cs i o)
All-set [] i o h k = (k, tt)
All-set (x ∷ cs) zero o h k = (k, h.1)
All-set (x ∷ cs) (suc i) o h k = (h.0, All-set cs i o h.1 k)

pub install-IsTable :
    (i : ℕ) (o : Option Channel) (p : Peer)
    → i < max_channel_num
    → IsSlot o
    → IsTable p
    → IsTable (install i o p)
install-IsTable i o p l h t = record {
  size = omega (arith, length-set p.channels i o (omega (arith, t.size, l)), t.size);
  slots = All-set p.channels i o t.slots h;
}

find_sid-IsChannel :
    (sid : ℕ) (cs : List (Option Channel)) (i : ℕ) (c : Channel)
    → All IsSlot cs
    → find_sid sid cs ≡ some (i, c)
    → IsChannel c
unfolding find_sid
find_sid-IsChannel sid [] i c h e = cc
find_sid-IsChannel sid (none ∷ cs) zero c h e = ground arith
find_sid-IsChannel sid (none ∷ cs) (suc i) c h e = ground (arith, find_sid-IsChannel sid cs i c h.1)
find_sid-IsChannel sid (some d ∷ cs) zero c h e = ground arith
find_sid-IsChannel sid (some d ∷ cs) (suc i) c h e =
    ground (arith, find_sid-IsChannel sid cs i c h.1)

-- The slot where a search for a free one stops is in the table, if it is not behind it.
pub free-IsIn :
    (p : Peer)
    → IsTable p
    → first_free p.channels ≢ max_channel_num
    → first_free p.channels < max_channel_num
free-IsIn p t h = omega (arith, first_free-le-length p.channels, t.size, h)

-- So is the slot of a channel that is found.
pub find_sid-IsIn :
    (p : Peer) (sid i : ℕ) (c : Channel)
    → IsTable p
    → find_sid sid p.channels ≡ some (i, c)
    → (i < max_channel_num) × IsChannel c
find_sid-IsIn p sid i c t e =
    let (_, _, inside) = find_sid_found sid p.channels i c e in
    (omega (arith, inside, t.size), find_sid-IsChannel sid p.channels i c t.slots e)

-- The bytes of a message are bytes.
abbrev pub IsBytes : Bytes → Type 0
IsBytes = All (λ b. b < 256)

pub read_open-IsSized :
    (msg : Bytes) (m : OpenMessage) → IsBytes msg → read_open msg ≡ some m → IsSized m
unfolding read_open
read_open-IsSized (t ∷ c ∷ p1 ∷ p0 ∷ r3 ∷ r2 ∷ r1 ∷ r0 ∷ l1 ∷ l0 ∷ q1 ∷ q0 ∷ text) m h e =
    ground arith
read_open-IsSized _ m h e = ground arith

allocate-IsChannel :
    (env : Env) (m : OpenMessage) (sid : ℕ) (c : Channel)
    → IsSized m
    → sid < 65536
    → allocate_new_data_channel env m sid ≡ some (some c)
    → IsChannel c
unfolding allocate_new_data_channel
allocate-IsChannel env m sid c h k e = ground arith

pub set_state : (s : ChannelState) (c : Channel) → IsChannel c → IsChannel (record c { state = s })
set_state s c h = record {
  type = h.type;
  priority = h.priority;
  rtx = h.rtx;
  lifetime = h.lifetime;
  sid = h.sid;
  one_limit = h.one_limit;
}

pub allocate-IsSlot :
    (env : Env) (m : OpenMessage) (sid : ℕ) (o : Option Channel)
    → IsSized m
    → sid < 65536
    → allocate_new_data_channel env m sid ≡ some o
    → IsSlot o
allocate-IsSlot env m sid none h k e = tt
allocate-IsSlot env m sid (some c) h k e = allocate-IsChannel env m sid c h k e

pub accept_cases :
    (env : Env) (p q : Peer) (sid : ℕ) (o : Option Channel)
    → accept_channel env p sid o ≡ some q
    → (q ≡ p)
      ⊎ (q ≡ answer_open env (install (first_free p.channels) o p) (first_free p.channels) sid)
unfolding accept_channel
accept_cases env p q sid none e = ground arith
accept_cases env p q sid (some c) e = ground arith

pub open_cases :
    (env : Env) (p q : Peer) (sid : ℕ) (msg : Bytes)
    → handle_rtcdc_open_request env p sid msg ≡ some q
    → (q ≡ p)
      ⊎ ((m : OpenMessage) × (o : Option Channel) × (read_open msg ≡ some m)
          × (first_free p.channels ≢ max_channel_num)
          × (allocate_new_data_channel env m sid ≡ some o)
          × (accept_channel env p sid o ≡ some q))
unfolding handle_rtcdc_open_request
open_cases env p q sid msg e = ground arith

pub control_cases :
    (env : Env) (p q : Peer) (sid b : ℕ) (msg : Bytes)
    → handle_control env p sid (b ∷ msg) ≡ some q
    → (handle_rtcdc_open_request env p sid (b ∷ msg) ≡ some q)
      ⊎ ((q ≡ handle_rtcdc_open_ack env p sid) ⊎ (q ≡ p))
unfolding handle_control
control_cases env p q sid b msg e = ground arith

pub message_cases :
    (env : Env) (p q : Peer) (msg : Bytes) (ppid sid : ℕ)
    → handle_rtcdc_message env p msg ppid sid ≡ some q
    → (handle_control env p sid msg ≡ some q)
      ⊎ ((q ≡ handle_rtcdc_data env p sid string msg)
          ⊎ ((q ≡ handle_rtcdc_data env p sid binary msg)
              ⊎ ((q ≡ handle_rtcdc_data env p sid empty msg) ⊎ (q ≡ p))))
unfolding handle_rtcdc_message
message_cases env p q msg ppid sid e = ground arith

pub send_cases :
    (env : Env) (p : Peer) (msg : Option Bytes) (sid ppid : ℕ)
    → let q = (send_sctp_message env p msg sid ppid).1 in
      (q ≡ p) ⊎ (q ≡ record p { events = p.events ++ Event.sendv sid ppid msg ∷ [] })
unfolding send_sctp_message
send_cases env p msg sid ppid = ground arith
