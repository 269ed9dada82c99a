-- ===== src/Lifecycle/Counts.antt =====
-- The reference counts of the library's global state.
use librtcdc.Base.{
  ℕ, zero, suc, ◌≡◌, refl, Bool, true, false, not, ◌&&◌, ◌||◌, ◌⊎◌, inl, inr, Bool-cases,
  if◌then◌else◌, pos, inc, dec, dec-inc, is_zero, arith,
}
use librtcdc.Peer.{Status, success, failure}
use librtcdc.Lifecycle.{
  Globals, Outcomes, Link, create_dtls_transport, create_ice_transport, open_socket,
  create_sctp_transport, destroy_sctp_transport, release_context, unlink, with_sctp,
}

-- `n` transports use the context, which is there if there is one of them.
pub record IsCounted (n : ℕ) (g : Globals) : Type 0 where
  pub count : g.context_ref ≡ pos n
  pub context : g.dtls_context ≡ not (is_zero (pos n))

-- The counters and the context are the same.
abbrev pub IsSame : Globals → Globals → Type 0
IsSame g h =
    (g.dtls_context ≡ h.dtls_context) × (g.context_ref ≡ h.context_ref) × (g.sctp_ref ≡ h.sctp_ref)

-- The SCTP transport is begun, and then its socket or one of its buffers is not made.
abbrev pub fails_in_sctp : Outcomes → Globals → Bool
fails_in_sctp o g =
    o.alloc_transport
    && ((g.dtls_context || o.create_context)
        && (create_dtls_transport o
            && (o.alloc_sctp && not (o.socket && (o.sctp_incoming_bio && o.sctp_outgoing_bio)))))

-- A context that was counted and is released is as before.
pub release_again :
    (n : ℕ) (g h : Globals)
    → IsCounted n g
    → h.dtls_context ≡ true
    → h.context_ref ≡ inc g.context_ref
    → ((release_context h).dtls_context ≡ g.dtls_context)
      × ((release_context h).context_ref ≡ g.context_ref)
      × ((release_context h).sctp_ref ≡ h.sctp_ref)
unfolding release_context
release_again zero g h counted there up =
    let count = counted.count in
    let context = counted.context in ground (arith, count, context, there, up)
release_again (suc n) g h counted there up =
    let count = counted.count in
    let context = counted.context in ground (arith, count, context, there, up)

create_sctp_counts :
    (o : Outcomes) (g h : Globals) (b : Bool)
    → create_sctp_transport o g ≡ (b, h)
    → (h.dtls_context ≡ g.dtls_context)
      × (h.context_ref ≡ g.context_ref)
      × (b ≡ (o.alloc_sctp && (o.socket && (o.sctp_incoming_bio && o.sctp_outgoing_bio))))
      × (h.sctp_ref ≡ (if o.alloc_sctp then inc g.sctp_ref else g.sctp_ref))
unfolding create_sctp_transport open_socket
create_sctp_counts o g h b e = ground arith

destroy_sctp_counts :
    (o : Outcomes) (g : Globals)
    → ((destroy_sctp_transport o g).dtls_context ≡ g.dtls_context)
      × ((destroy_sctp_transport o g).context_ref ≡ g.context_ref)
      × ((destroy_sctp_transport o g).sctp_ref ≡ dec g.sctp_ref)
unfolding destroy_sctp_transport
destroy_sctp_counts o g = (refl, refl, refl)

-- A transport that was made is destroyed, and the counters are as before.
pub destroy_again :
    (n : ℕ) (o : Outcomes) (g h : Globals)
    → IsCounted n g
    → h.dtls_context ≡ true
    → h.context_ref ≡ inc g.context_ref
    → h.sctp_ref ≡ inc g.sctp_ref
    → IsSame (release_context (destroy_sctp_transport o h)) g
destroy_again n o g h counted there up sctp =
    let (same_context, same_ref, less) = destroy_sctp_counts o h in
    let (context, ref, kept) =
      release_again n g (destroy_sctp_transport o h) counted (rw same_context there)
        (rw same_ref up) in
    (context, ref, rw (kept, less, sctp) (dec-inc g.sctp_ref))

-- The state when the context is counted, before the other transports.
abbrev pub counted_in : Globals → Globals
counted_in g = record g { dtls_context = true; context_ref = inc g.context_ref }

-- What a run of with_sctp leaves, by its result.
pub with_sctp_cases :
    (n : ℕ) (o : Outcomes) (l k : Link) (g h u : Globals) (b : Bool) (s : Status)
    → IsCounted n g
    → create_sctp_transport o (counted_in g) ≡ (b, u)
    → with_sctp o l (b, u) ≡ (s, (k, h))
    → ((s ≡ success)
        × (k ≡ record l { initialized = true })
        × (h.dtls_context ≡ true)
        × (h.context_ref ≡ inc g.context_ref)
        × (h.sctp_ref ≡ inc g.sctp_ref))
      ⊎ ((s ≡ failure)
          × (k ≡ unlink l)
          × (h.dtls_context ≡ g.dtls_context)
          × (h.context_ref ≡ g.context_ref)
          × (h.sctp_ref ≡ (
              if o.alloc_sctp && not (o.socket && (o.sctp_incoming_bio && o.sctp_outgoing_bio))
              then inc g.sctp_ref
              else g.sctp_ref)))
unfolding with_sctp
with_sctp_cases n o l k g h u false s counted made e =
    let (context, ref, which, sctp) = create_sctp_counts o (counted_in g) u false made in
    let released = release_again n g u counted context ref in
    inr (
      ground arith,
      ground arith,
      ground (arith, released),
      ground (arith, released),
      ground (arith, released, which, sctp),
    )
with_sctp_cases n o l k g h u true s counted made e =
    let (context, ref, which, sctp) = create_sctp_counts o (counted_in g) u true made in
    let alloc : o.alloc_sctp ≡ true = ground (arith, which) in
    let up : u.sctp_ref ≡ inc g.sctp_ref = ground (arith, sctp, alloc) in
    elim (Bool-cases (create_ice_transport o)) [
      | inl ice ↦ inl (
        ground (arith, ice),
        ground (arith, ice),
        ground (arith, ice, context),
        ground (arith, ice, ref),
        ground (arith, ice, up),
      )
      | inr no_ice ↦
          let again = destroy_again n o g u counted context ref up in
          inr (
            ground (arith, no_ice),
            ground (arith, no_ice),
            ground (arith, no_ice, again),
            ground (arith, no_ice, again),
            ground (arith, no_ice, again, which),
          )
    ]
