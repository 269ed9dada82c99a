-- ===== src/Channel/Sids.antt =====
-- The stream ids that rtcdc_create_data_channel gives: startup_thread starts the cursor of the client
-- at 0 and of the server at 1, and each channel moves it on by two.
use librtcdc.Base.{
  ℕ, ◌+◌, ◌%◌, ◌≤◌, ◌≡◌, ◌≢◌, refl, ◌⊎◌, inl, inr, Option, none, some, Bytes, arith,
}
use librtcdc.Peer.{
  Status, success, failure, Channel, Event, Sctp, Peer, Env, first_free, send_sctp_message,
}
use librtcdc.Dcep.Invariant.{IsTable, IsKept, install-IsTable}
use librtcdc.Channel.{
  Request, new_channel, open_request, create_in, finish, create_data_channel, advance,
}
use librtcdc.Dcep.Wire.{write_open, control_ppid}
use librtcdc.Channel.Reach.{Reach, Reach-keeps, create_cases}

-- The cursor has the parity `k` and has reached `n`; the table is in order.
pub record IsCursor (k n : ℕ) (p : Peer) : Type 0 where
  pub table : IsTable p
  pub at : (s : Sctp) → p.transport ≡ some s → (s.stream_cursor % 2 ≡ k) × (n ≤ s.stream_cursor)

-- What the application does in its callbacks, such as opening channels, keeps that.
pub record IsOrderly (env : Env) : Type 0 where
  pub keeps : (k n : ℕ) (e : Event) (p : Peer) → IsCursor k n p → IsCursor k n (env.callback e p)

pub Reach-IsCursor :
    (env : Env) (k n : ℕ) (p q : Peer)
    → IsOrderly env
    → Reach env p q
    → IsCursor k n p
    → IsCursor k n q
Reach-IsCursor env k n p q orderly r t = Reach-keeps env (IsCursor k n) kept moves r t
  where
    kept : IsKept env (IsCursor k n)
    kept = record {
      table = λ p t. t.table;
      event = λ e p t. record {
        table = record { size = t.table.size; slots = t.table.slots };
        at = t.at;
      };
      entry = λ i o p l h t. record { table = install-IsTable i o p l h t.table; at = t.at };
      callback = orderly.keeps k n;
    }

    moves :
        (s : Sctp) (p : Peer) → p.transport ≡ some s → IsCursor k n p → IsCursor k n (advance s p)
    moves s p ht t = record {
      table = record { size = t.table.size; slots = t.table.slots };
      at = λ u e. ground (arith, t.at s ht);
    }

finish_cases :
    (i : ℕ) (ch : Channel) (sent : Status × Peer)
    → ((finish i ch sent).1 ≡ none)
      ⊎ (((finish i ch sent).1 ≡ some ch) × ((finish i ch sent).0.transport ≡ sent.1.transport))
unfolding finish
finish_cases i ch (success, p) = inr (refl, refl)
finish_cases i ch (failure, p) = inl refl

transport-send :
    (env : Env) (p : Peer) (msg : Option Bytes) (sid ppid : ℕ)
    → (send_sctp_message env p msg sid ppid).1.transport ≡ p.transport
unfolding send_sctp_message
transport-send env p msg sid ppid = ground arith

create_in_made :
    (env : Env) (p : Peer) (s : Sctp) (r : Request) (label protocol : Bytes) (i : ℕ)
    → let made = create_in env p s r label protocol i in
      (made.1 ≡ none)
      ⊎ ((made.1 ≡ some (new_channel r s.stream_cursor))
          × (made.0.transport ≡ some (record s { stream_cursor = s.stream_cursor + 2 })))
unfolding create_in
create_in_made env p s r label protocol i =
    let msg = some (write_open (open_request label protocol)) in
    let sid = s.stream_cursor % 65536 in
    ground (
      arith,
      finish_cases i (new_channel r s.stream_cursor)
          (send_sctp_message env (advance s p) msg sid control_ppid),
      transport-send env (advance s p) msg sid control_ppid,
    )

-- A channel that is made has the cursor, cut to 16 bits, for its stream id, and the cursor moves on.
pub create_sid :
    (env : Env) (p q : Peer) (r : Request) (c : Channel)
    → create_data_channel env p r ≡ some (q, some c)
    → (s : Sctp) × (p.transport ≡ some s)
      × (c.sid ≡ s.stream_cursor % 65536)
      × (q.transport ≡ some (record s { stream_cursor = s.stream_cursor + 2 }))
unfolding new_channel
create_sid env p q r c e = elim (create_cases env p q r (some c) e) [
  | inl (_, nothing) ↦ cc
  | inr (s, label, protocol, ht, _, eq, ec) ↦
      let made = create_in_made env p s r label protocol (first_free p.channels) in
      (s, ht, ground (arith, made), ground (arith, made))
]

-- Two peers whose tables are in order, of which one starts its cursor even and the other odd, never
-- give the same stream id to channels of their own, whatever happens to them before, if the
-- callbacks leave the tables in order and only move the cursors on by even numbers.
pub sids_disjoint :
    (env other : Env) (a p q b u v : Peer) (r t : Request) (c d : Channel)
    → IsOrderly env
    → IsOrderly other
    → IsCursor 0 0 a
    → IsCursor 1 1 b
    → Reach env a p
    → Reach other b u
    → create_data_channel env p r ≡ some (q, some c)
    → create_data_channel other u t ≡ some (v, some d)
    → c.sid ≢ d.sid
sids_disjoint env other a p q b u v r t c d oe oo ia ib ra rb ec ed same =
    let (s, hs, cs, _) = create_sid env p q r c ec in
    let (w, hw, dw, _) = create_sid other u v t d ed in
    let even = (Reach-IsCursor env 0 0 a p oe ra ia).at s hs in
    let odd = (Reach-IsCursor other 1 1 b u oo rb ib).at w hw in omega (arith, even, odd)
