-- ===== src/Channel/Reach.antt =====
-- What can happen to the channels of a peer: the application opens channels and sends, messages arrive. Callbacks
-- act inside these steps. In `Reach` the transport stands as startup_thread has set it, in `Life` it is made,
-- set and destroyed as well.
use librtcdc.Base.{
  ℕ, ◌%◌, ◌<◌, ◌≡◌, ◌≢◌, ◌⊎◌, inl, inr, Option, none, some, Bytes, arith, Option-cases,
}
use librtcdc.Peer.{
  Datatype, string, binary, empty, Status, success, failure, Channel, Event, Sctp, Peer, Env,
  first_free, max_channel_num, send_sctp_message,
}
use librtcdc.Dcep.{handle_rtcdc_message}
use librtcdc.Dcep.Wire.{write_open, control_ppid}
use librtcdc.Dcep.Invariant.{IsChannel, IsTable, IsKept, IsBytes, free-IsIn, install-IsTable}
use librtcdc.Dcep.Keeps.{send-keeps, handle-keeps}
use librtcdc.Channel.{
  Request, new_channel, open_request, create_in, finish, create_data_channel, rtcdc_send_message,
  ppid_of, advance,
}

pub data Step (env : Env) (p q : Peer) : Type 0 where
  creates :
      (r : Request) (o : Option Channel) → create_data_channel env p r ≡ some (q, o) → Step env p q
  sends :
      (ch : Channel) (type : Datatype) (msg : Option Bytes)
      → q ≡ (rtcdc_send_message env p (some ch) type msg).1
      → Step env p q
  receives :
      (msg : Bytes) (ppid sid : ℕ)
      → IsBytes msg
      → sid < 65536
      → handle_rtcdc_message env p msg ppid sid ≡ some q
      → Step env p q

pub data Reach (env : Env) (p : Peer) : Peer → Type 0 where
  here : Reach env p p
  next : {q u : Peer} → Reach env p q → Step env q u → Reach env p u

-- A creation changes nothing, or goes on in the first free slot.
create_in_cases :
    (env : Env) (p q : Peer) (s : Sctp) (r : Request) (o : Option Channel) (label protocol : Bytes)
    → p.transport ≡ some s
    → r.label ≡ some label
    → r.protocol ≡ some protocol
    → create_data_channel env p r ≡ some (q, o)
    → let made = create_in env p s r label protocol (first_free p.channels) in
      ((q ≡ p) × (o ≡ none))
      ⊎ ((first_free p.channels ≢ max_channel_num) × (q ≡ made.0) × (o ≡ made.1))
unfolding create_data_channel
create_in_cases env p q s r o label protocol ht hl hp e = ground arith

pub create_cases :
    (env : Env) (p q : Peer) (r : Request) (o : Option Channel)
    → create_data_channel env p r ≡ some (q, o)
    → ((q ≡ p) × (o ≡ none))
      ⊎ ((s : Sctp) × (label : Bytes) × (protocol : Bytes) × (p.transport ≡ some s)
          × (first_free p.channels ≢ max_channel_num)
          × (q ≡ (create_in env p s r label protocol (first_free p.channels)).0)
          × (o ≡ (create_in env p s r label protocol (first_free p.channels)).1))
unfolding create_data_channel
create_cases env p q r o e = elim (Option-cases p.transport) [
  | inl ht ↦ inl (ground arith, ground arith)
  | inr (s, ht) ↦ elim (Option-cases r.label) [
    | inl hl ↦ inl (ground arith, ground arith)
    | inr (label, hl) ↦ elim (Option-cases r.protocol) [
      | inl hp ↦ inl (ground arith, ground arith)
      | inr (protocol, hp) ↦ elim (create_in_cases env p q s r o label protocol ht hl hp e) [
        | inl same ↦ inl same
        | inr (room, eq, eo) ↦ inr (s, label, protocol, ht, room, eq, eo)
      ]
    ]
  ]
]

new_channel-IsChannel : (r : Request) (cursor : ℕ) → IsChannel (new_channel r cursor)
unfolding new_channel
new_channel-IsChannel r cursor = ground arith

module _ (env : Env) (P : Peer → Type 0) (kept : IsKept env P)
    (moves : (s : Sctp) (p : Peer) → p.transport ≡ some s → P p → P (advance s p)) where
  finish-keeps :
      (i : ℕ) (r : Request) (cursor : ℕ) (sent : Status × Peer)
      → i < max_channel_num
      → P sent.1
      → P (finish i (new_channel r cursor) sent).0
  unfolding finish
  finish-keeps i r cursor (success, p) l t =
      kept.entry i (some (new_channel r cursor)) p l (new_channel-IsChannel r cursor) t
  finish-keeps i r cursor (failure, p) l t = kept.entry i none p l tt t

  create_in-keeps :
      (p : Peer) (s : Sctp) (r : Request) (label protocol : Bytes) (i : ℕ)
      → p.transport ≡ some s
      → i < max_channel_num
      → P p
      → P (create_in env p s r label protocol i).0
  unfolding create_in
  create_in-keeps p s r label protocol i ht l t = ground (
    arith,
    kept.entry i none p l tt t,
    finish-keeps i r s.stream_cursor
        (send_sctp_message env (advance s p) (some (write_open (open_request label protocol)))
          (s.stream_cursor % 65536) control_ppid)
        l
        (send-keeps env P kept (advance s p) (some (write_open (open_request label protocol)))
          (s.stream_cursor % 65536) control_ppid (moves s p ht t)),
  )

  create-keeps :
      (p q : Peer) (r : Request) (o : Option Channel)
      → create_data_channel env p r ≡ some (q, o)
      → P p
      → P q
  create-keeps p q r o e t = elim (create_cases env p q r o e) [
    | inl (same, _) ↦ rw same t
    | inr (s, label, protocol, ht, room, done, _) ↦ rw done (
        create_in-keeps p s r label protocol (first_free p.channels) ht
          (free-IsIn p (kept.table p t) room) t)
  ]

  send_message-keeps :
      (p : Peer) (ch : Channel) (type : Datatype) (msg : Option Bytes)
      → P p
      → P (rtcdc_send_message env p (some ch) type msg).1
  unfolding rtcdc_send_message ppid_of
  send_message-keeps p ch string msg t = send-keeps env P kept p msg ch.sid _ t
  send_message-keeps p ch binary msg t = send-keeps env P kept p msg ch.sid _ t
  send_message-keeps p ch empty msg t = t

  pub Step-keeps : (p q : Peer) → Step env p q → P p → P q
  Step-keeps p q (creates r o e) t = create-keeps p q r o e t
  Step-keeps p q (sends ch type msg e) t = rw e (send_message-keeps p ch type msg t)
  Step-keeps p q (receives msg ppid sid hm hs e) t =
      handle-keeps env P kept p q msg ppid sid t hm hs e

  pub Reach-keeps : {p q : Peer} → Reach env p q → P p → P q
  Reach-keeps here t = t
  Reach-keeps (next {q} {u} r s) t = Step-keeps q u s (Reach-keeps r t)

-- What the application does in its callbacks leaves the table in order.
pub record IsPolite (env : Env) : Type 0 where
  pub keeps : (e : Event) (p : Peer) → IsTable p → IsTable (env.callback e p)

-- The steps keep the table in order.
pub Reach-IsTable : (env : Env) (p q : Peer) → IsPolite env → Reach env p q → IsTable p → IsTable q
Reach-IsTable env p q polite r t =
    Reach-keeps env IsTable kept (λ s p ht t. record { size = t.size; slots = t.slots }) r t
  where
    kept : IsKept env IsTable
    kept = record {
      table = λ p t. t;
      event = λ e p t. record { size = t.size; slots = t.slots };
      entry = λ i o p l h t. install-IsTable i o p l h t;
      callback = polite.keeps;
    }

-- The steps, and whatever becomes of the transport: rtcdc.c makes it, startup_thread sets its cursor and its
-- flag, and it is destroyed.
pub data Life (env : Env) (p : Peer) : Peer → Type 0 where
  begins : Life env p p
  steps : {q u : Peer} → Life env p q → Step env q u → Life env p u
  transports :
      {q : Peer} → (s : Option Sctp) → Life env p q → Life env p (record q { transport = s })

-- Whatever happens, in any order, to a peer whose table is in order (128 slots, none behind them, and in each
-- channel fields in the range of their C types and at most one of the two limits on retransmission), and
-- whatever becomes of its transport, the table stays so, if the application's callbacks leave it so.
pub Life-IsTable : (env : Env) (p q : Peer) → IsPolite env → Life env p q → IsTable p → IsTable q
Life-IsTable env p _ polite begins t = t
Life-IsTable env p u polite (steps {q} l s) t =
    Reach-IsTable env q u polite (next here s) (Life-IsTable env p q polite l t)
Life-IsTable env p _ polite (transports {q} s l) t =
    let before = Life-IsTable env p q polite l t in
    record { size = before.size; slots = before.slots }
