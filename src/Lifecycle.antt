-- ===== src/Lifecycle.antt =====
-- The transport of a peer: create_rtcdc_transport and destroy_rtcdc_transport of src/rtcdc.c, with
-- create_sctp_transport and destroy_sctp_transport of src/sctp.c, create_dtls_transport of src/dtls.c and
-- create_ice_transport of src/ice.c, as far as they change the library's global variables and the peer.
pub mod Counts
pub mod Outcome
use librtcdc.Base.{
  ℕ, zero, suc, Bool, true, false, not, ◌&&◌, ◌||◌, List, [], ◌∷◌, ◌++◌, if◌then◌else◌, ℤ, pos,
  negsuc, inc, dec, le_zero, is_zero,
}
use librtcdc.Peer.{Role, Status, success, failure}

-- The calls of usrsctp that keep state there.
pub data SctpCall : Type 0 where
  usrsctp_init usrsctp_register_address usrsctp_deregister_address usrsctp_close usrsctp_finish :
      SctpCall

-- g_dtls_context (is it not NULL?), g_context_ref, g_sctp_ref, and the calls of usrsctp so far.
pub record Globals : Type 0 where
  pub dtls_context : Bool
  pub context_ref : ℤ
  pub sctp_ref : ℤ
  pub calls : List SctpCall

-- What the calls of other libraries give: is it not NULL, or not 0? `finish n` says whether
-- usrsctp_finish succeeds when n tries are left behind it.
pub record Outcomes : Type 0 where
  pub alloc_transport : Bool
  pub create_context : Bool
  pub alloc_dtls : Bool
  pub ssl_new : Bool
  pub dtls_incoming_bio : Bool
  pub dtls_outgoing_bio : Bool
  pub alloc_sctp : Bool
  pub socket : Bool
  pub sctp_incoming_bio : Bool
  pub sctp_outgoing_bio : Bool
  pub alloc_ice : Bool
  pub main_loop : Bool
  pub agent : Bool
  pub add_stream : Bool
  pub gather_candidates : Bool
  pub finish : ℕ → Bool

-- The fields of the peer: is `transport` not NULL, `role`, `initialized`.
pub record Link : Type 0 where
  pub transport : Bool
  pub role : Role
  pub initialized : Bool

unfoldable pub create_dtls_transport : Outcomes → Bool
create_dtls_transport o =
    o.alloc_dtls && (o.ssl_new && (o.dtls_incoming_bio && o.dtls_outgoing_bio))

unfoldable pub create_ice_transport : Outcomes → Bool
create_ice_transport o =
    o.alloc_ice && (o.main_loop && (o.agent && (o.add_stream && o.gather_candidates)))

-- From the socket on.
unfoldable pub open_socket : Outcomes → Globals → Bool × Globals
open_socket o g =
    if o.socket && (o.sctp_incoming_bio && o.sctp_outgoing_bio)
    then (true, g)
    else (false, record g { calls = g.calls ++ usrsctp_finish ∷ [] })

unfoldable pub create_sctp_transport : Outcomes → Globals → Bool × Globals
create_sctp_transport o g =
    if not o.alloc_sctp
    then (false, g)
    else open_socket o (record g {
      sctp_ref = inc g.sctp_ref;
      calls =
          g.calls
          ++ (if is_zero g.sctp_ref
              then usrsctp_init ∷ usrsctp_register_address ∷ []
              else usrsctp_register_address ∷ []);
    })

-- The loop of up to 300 tries.
unfoldable pub finish_loop : ℕ → (ℕ → Bool) → List SctpCall
finish_loop zero ok = []
finish_loop (suc n) ok = let rest = finish_loop n ok in usrsctp_finish ∷ (if ok n then [] else rest)

unfoldable pub destroy_sctp_transport : Outcomes → Globals → Globals
destroy_sctp_transport o g = record g {
  sctp_ref = dec g.sctp_ref;
  calls =
      g.calls
      ++ (usrsctp_close
          ∷ usrsctp_deregister_address
          ∷ (if is_zero (dec g.sctp_ref) then finish_loop 300 o.finish else []));
}

-- if (--g_context_ref <= 0) ...
unfoldable pub release_context : Globals → Globals
release_context g =
    if le_zero (dec g.context_ref)
    then record g { dtls_context = false; context_ref = pos 0 }
    else record g { context_ref = dec g.context_ref }

-- free(transport)
abbrev pub unlink : Link → Link
unlink l = record l { transport = false }

unfoldable pub with_sctp : Outcomes → Link → Bool × Globals → Status × (Link × Globals)
with_sctp o l (false, g) = (failure, (unlink l, release_context g))
with_sctp o l (true, g) =
    if create_ice_transport o
    then (success, (record l { initialized = true }, g))
    else (failure, (unlink l, release_context (destroy_sctp_transport o g)))

-- With the context counted.
unfoldable pub with_context : Outcomes → Link → Globals → Status × (Link × Globals)
with_context o l g =
    if create_dtls_transport o
    then with_sctp o l (create_sctp_transport o g)
    else (failure, (unlink l, release_context g))

unfoldable pub create_rtcdc_transport : Outcomes → Link → Role → Globals → Status × (Link × Globals)
create_rtcdc_transport o l role g =
    if not o.alloc_transport
    then (failure, (l, g))
    else if g.dtls_context || o.create_context
    then with_context o (record l { transport = true; role = role })
        (record g { dtls_context = true; context_ref = inc g.context_ref })
    else (failure, (record l { transport = false; role = role }, g))

-- Of a transport that was made.
unfoldable pub destroy_rtcdc_transport : Outcomes → Globals → Globals
destroy_rtcdc_transport o g = release_context (destroy_sctp_transport o g)
