-- ===== src/Pump/Streams.antt =====
-- From the offer to the stream ids: the role that the exchange of the descriptions settles (sdp.c, rtcdc.c)
-- gives startup_thread the first stream id, and rtcdc_create_data_channel counts on from it.
use librtcdc.Base.{
  ℕ, ◌<◌, ◌≡◌, ◌≢◌, refl, ap, sym, ◌∙◌, Bool, true, false, Option, none, some, length, ℤ, arith,
}
use librtcdc.Peer.{Role, client, server, unknown, Channel, Sctp, Peer, Env}
use librtcdc.Dcep.Invariant.{IsTable}
use librtcdc.Channel.{Request, create_data_channel}
use librtcdc.Channel.Reach.{Reach}
use librtcdc.Channel.Sids.{IsCursor, IsOrderly, sids_disjoint, create_sid}
use librtcdc.Lifecycle.{Globals}
use librtcdc.Sdp.Splitting.{Glib, IsGlib}
use librtcdc.Sdp.{Local, Agent, Party, buffer_size, crlf_text}
use librtcdc.Sdp.Exchange.{IsPlain}
use librtcdc.Sdp.Agreement.{IsFresh, exchange, described, exchange_roles}
use librtcdc.Pump.{Ssl, Running, wait_ice, startup_turn, open_sctp}
use librtcdc.Pump.Opening.{first_stream, startup_opens}

-- Two turns of startup_thread.
abbrev pub two_turns : {S : Type 0} → Ssl S → Running S → Running S
two_turns lib c =
    let d = startup_turn lib true true c.startup c in startup_turn lib true true d.startup d

-- The roles of the two peers after an exchange.
abbrev roles_of : Option ((ℤ × Party) × (ℤ × Party)) → Role × Role
roles_of none = (unknown, unknown)
roles_of (some (a, b)) = (a.1.link.role, b.1.link.role)

-- The threads of the peer, in the role it has settled, can open the association; its channels are in order
-- and its stream ids begin where startup_thread lets them begin.
pub record IsOpened {S : Type 0} (lib : Ssl S) (party : Party) (c : Running S) (p : Peer)
    : Type 0 where
  pub role : c.role ≡ party.link.role
  pub waits : c.startup ≡ wait_ice
  pub goes_on : c.exit_thread ≡ false
  pub path : c.negotiation_done ≡ true
  pub done : c.dtls_handshake_done ≡ true
  pub table : IsTable p
  pub begins : (s : Sctp) → p.transport ≡ some s → s.stream_cursor ≡ (two_turns lib c).stream_cursor

module _ {S : Type 0} (lib : Ssl S) where
  begins_at :
      (party : Party) (c : Running S) (p : Peer)
      → IsOpened lib party c p
      → (s : Sctp) → p.transport ≡ some s
      → s.stream_cursor ≡ first_stream party.link.role
  begins_at party c p o s there =
      let opened =
        startup_opens lib c (startup_turn lib true true c.startup c) o.waits o.goes_on o.path o.done
          refl in
      o.begins s there ∙ ap (λ (r : Running S). r.stream_cursor) opened ∙ ap first_stream o.role

  client-IsCursor :
      (party : Party) (c : Running S) (p : Peer)
      → party.link.role ≡ client
      → IsOpened lib party c p
      → IsCursor 0 0 p
  client-IsCursor party c p role o = record {
    table = o.table;
    at = λ s there.
        let first = begins_at party c p o s there ∙ ap first_stream role in omega (arith, first);
  }

  server-IsCursor :
      (party : Party) (c : Running S) (p : Peer)
      → party.link.role ≡ server
      → IsOpened lib party c p
      → IsCursor 1 1 p
  server-IsCursor party c p role o = record {
    table = o.table;
    at = λ s there.
        let first = begins_at party c p o s there ∙ ap first_stream role in omega (arith, first);
  }

-- If two fresh peers exchange an offer and an answer that fit their buffers, their threads then open the
-- association in the roles that this settles, and their tables are in order, then a channel that the one
-- makes never has the stream id of a channel that the other makes, whatever happens to them before, if the
-- callbacks leave the tables in order and only move the cursors on by even numbers.
pub exchange_sids :
    {C S : Type 0} (glib : Glib) (laws : IsGlib glib) (lib : Ssl S) (a b : Agent C) (m n : ℕ)
    (k l : Local) (p q : Party) (g h : Globals) (x y : ℤ) (ours theirs : Party)
    (run other_run : Running S) (env other : Env) (u v w z u_after w_after : Peer) (r t : Request)
    (c d : Channel)
    → IsFresh m k p g
    → IsFresh n l q h
    → IsPlain glib laws k
    → IsPlain glib laws l
    → length (crlf_text (described glib k true)) < buffer_size
    → length (crlf_text (described glib l false)) < buffer_size
    → exchange glib a b k l p q ≡ some ((x, ours), (y, theirs))
    → IsOpened lib ours run u
    → IsOpened lib theirs other_run w
    → IsOrderly env
    → IsOrderly other
    → Reach env u v
    → Reach other w z
    → create_data_channel env v r ≡ some (u_after, some c)
    → create_data_channel other z t ≡ some (w_after, some d)
    → c.sid ≢ d.sid
exchange_sids glib laws lib a b m n k l p q g h x y ours theirs run other_run env other u v w z
      u_after w_after r t c d fresh_p fresh_q plain_k plain_l fits_k fits_l exchanged opened
      other_opened oe oo ru rz cu cw =
    let agreed =
      sym exchanged
      ∙ exchange_roles glib laws a b m n k l p q g h fresh_p fresh_q plain_k plain_l fits_k
          fits_l in
    let first : ours.link.role ≡ client = ap (λ t. (roles_of t).0) agreed in
    let second : theirs.link.role ≡ server = ap (λ t. (roles_of t).1) agreed in
    sids_disjoint env other u v u_after w z w_after r t c d oe oo
      (client-IsCursor lib ours run u first opened)
      (server-IsCursor lib theirs other_run w second other_opened) ru rz cu cw

-- What startup_thread sets at the channel layer when it opens the association.
abbrev pub starts : {S : Type 0} → Running S → Sctp → Peer → Peer
starts c s p = record p {
  transport =
      some (record s { stream_cursor = c.stream_cursor; handshake_done = c.sctp_handshake_done });
}

-- A channel that a client makes while the cursor of its transport is 0, as it is in a new one, and the first
-- that it makes when startup_thread has opened the association have the same stream id, whatever happened
-- to the peer in between.
pub sid_given_again :
    {S : Type 0} (run : Running S) (has_callback : Bool) (env other : Env) (p q u v : Peer)
    (r t : Request) (c d : Channel) (s w : Sctp)
    → p.transport ≡ some s
    → s.stream_cursor ≡ 0
    → create_data_channel env p r ≡ some (q, some c)
    → create_data_channel other (starts (open_sctp client true has_callback run) w u) t
      ≡ some (v, some d)
    → c.sid ≡ d.sid
unfolding open_sctp
sid_given_again run has_callback env other p q u v r t c d s w there new first second =
    let (a, ha, cs, _) = create_sid env p q r c first in
    let (b, hb, ds, _) =
      create_sid other (starts (open_sctp client true has_callback run) w u) v t d second in
    ground (arith, there, new, ha, cs, hb, ds)
