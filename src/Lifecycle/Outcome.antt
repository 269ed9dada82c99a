-- ===== src/Lifecycle/Outcome.antt =====
-- Both results of create_rtcdc_transport, and the way back.
use librtcdc.Base.{
  ℕ, suc, ◌≡◌, refl, true, false, ◌||◌, ◌⊎◌, inl, inr, Bool-cases, if◌then◌else◌, inc, arith,
}
use librtcdc.Peer.{Role, Status, success, failure}
use librtcdc.Lifecycle.{
  Globals, Outcomes, Link, create_dtls_transport, create_sctp_transport, with_sctp, with_context,
  create_rtcdc_transport, destroy_rtcdc_transport,
}
use librtcdc.Lifecycle.Counts.{
  IsCounted, IsSame, fails_in_sctp, release_again, destroy_again, counted_in, with_sctp_cases,
}

abbrev linked : Link → Role → Link
linked l role = record l { transport = true; role = role }

-- What a run of create_rtcdc_transport leaves, by its result.
create_cases :
    (n : ℕ) (o : Outcomes) (l k : Link) (role : Role) (g h : Globals) (s : Status)
    → IsCounted n g
    → l.transport ≡ false
    → create_rtcdc_transport o l role g ≡ (s, (k, h))
    → ((s ≡ success)
        × (k ≡ record (linked l role) { initialized = true })
        × (h.dtls_context ≡ true)
        × (h.context_ref ≡ inc g.context_ref)
        × (h.sctp_ref ≡ inc g.sctp_ref))
      ⊎ ((s ≡ failure)
          × (k.transport ≡ false)
          × (h.dtls_context ≡ g.dtls_context)
          × (h.context_ref ≡ g.context_ref)
          × (h.sctp_ref ≡ (if fails_in_sctp o g then inc g.sctp_ref else g.sctp_ref)))
unfolding create_rtcdc_transport with_context
create_cases n o l k role g h s counted free e = elim (Bool-cases o.alloc_transport) [
  | inr missing ↦ inr (
    ground (arith, missing),
    ground (arith, missing, free),
    ground (arith, missing),
    ground (arith, missing),
    ground (arith, missing),
  )
  | inl allocated ↦ elim (Bool-cases (g.dtls_context || o.create_context)) [
    | inr missing ↦ inr (
      ground (arith, allocated, missing),
      ground (arith, allocated, missing),
      ground (arith, allocated, missing),
      ground (arith, allocated, missing),
      ground (arith, allocated, missing),
    )
    | inl context ↦ elim (Bool-cases (create_dtls_transport o)) [
      | inr missing ↦
          let released = release_again n g (counted_in g) counted refl refl in
          inr (
            ground (arith, allocated, context, missing),
            ground (arith, allocated, context, missing),
            ground (arith, allocated, context, missing, released),
            ground (arith, allocated, context, missing, released),
            ground (arith, allocated, context, missing, released),
          )
      | inl dtls ↦
          let made = create_sctp_transport o (counted_in g) in
          let run : with_sctp o (linked l role) (made.0, made.1) ≡ (s, (k, h)) =
            ground (arith, allocated, context, dtls, e) in
          elim (with_sctp_cases n o (linked l role) k g h made.1 made.0 s counted refl run) [
            | inl done ↦ inl done
            | inr (bad, gone, a, b, c) ↦
                inr (bad, ground (arith, gone), a, b, ground (arith, c, allocated, context, dtls))
          ]
    ]
  ]
]

-- If the transport of a peer that has none is made, the peer has it and is initialized, one more
-- transport uses the context and one more uses usrsctp; and when it is destroyed, the context and
-- both counters are as they were before.
pub create_destroy :
    (n : ℕ) (o later : Outcomes) (l k : Link) (role : Role) (g h : Globals)
    → IsCounted n g
    → l.transport ≡ false
    → create_rtcdc_transport o l role g ≡ (success, (k, h))
    → (k ≡ record l { transport = true; role = role; initialized = true })
      × IsCounted (suc n) h
      × (h.sctp_ref ≡ inc g.sctp_ref)
      × IsSame (destroy_rtcdc_transport later h) g
unfolding destroy_rtcdc_transport
create_destroy n o later l k role g h counted free e =
    elim (create_cases n o l k role g h success counted free e) [
      | inr (bad, _, _, _, _) ↦ cc
      | inl (_, made, there, up, sctp) ↦ (
        made,
        record { count = rw (up, counted.count) refl; context = there },
        sctp,
        destroy_again n later g h counted there up sctp,
      )
    ]

-- If the transport of a peer that has none is not made, the peer has none and the context and its
-- counter are as before; but the counter of usrsctp is one higher exactly if the failure was in the
-- socket or the buffers of the SCTP transport.
pub create_failure :
    (n : ℕ) (o : Outcomes) (l k : Link) (role : Role) (g h : Globals)
    → IsCounted n g
    → l.transport ≡ false
    → create_rtcdc_transport o l role g ≡ (failure, (k, h))
    → (k.transport ≡ false)
      × (h.dtls_context ≡ g.dtls_context)
      × (h.context_ref ≡ g.context_ref)
      × (h.sctp_ref ≡ (if fails_in_sctp o g then inc g.sctp_ref else g.sctp_ref))
create_failure n o l k role g h counted free e =
    elim (create_cases n o l k role g h failure counted free e) [
      | inl (bad, _, _, _, _) ↦ cc
      | inr (_, a, b, c, d) ↦ (a, b, c, d)
    ]
