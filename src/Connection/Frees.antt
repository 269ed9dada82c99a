-- ===== src/Connection/Frees.antt =====
-- What the destruction of a peer connection frees.
use librtcdc.Base.{
  ℕ, ◌+◌, ◌≡◌, refl, ap, ◌∙◌, Bool, true, false, Option, none, some, List, [], ◌∷◌, ◌++◌, Bytes,
  if◌then◌else◌, length, arith, inl, inr, Option-cases, length-replicate,
}
use librtcdc.Peer.{Role, success, Channel, max_channel_num}
use librtcdc.Lifecycle.{Globals, Outcomes, Link, create_rtcdc_transport, destroy_rtcdc_transport}
use librtcdc.Lifecycle.Counts.{IsCounted, IsSame}
use librtcdc.Lifecycle.Outcome.{create_destroy}
use librtcdc.Connection.{
  PeerConnection, Arguments, Block, stun_text, label_text, protocol_text, peer_block, free_if, fill,
  without_lookup, create_with, rtcdc_create_peer_connection, rtcdc_destroy_peer_connection,
}
use librtcdc.Connection.Blocks.{
  same_block, frees_of, present, held, frees_of-append, frees_of-free_if, channels_freed, held_in,
  held_between_all,
}

-- The texts of the table, the STUN server and the peer itself make up what is held.
held_once :
    (c : PeerConnection) (b : Block) (n : ℕ)
    → n
      ≡ (if same_block b stun_text then present c.stun_server else 0)
        + (held_in c.channels b + frees_of b (peer_block ∷ []))
    → n ≡ held c b
unfolding held held_in frees_of
held_once c stun_text n e = ground arith
held_once c (label_text i) n e = ground arith
held_once c (protocol_text i) n e = ground arith
held_once c peer_block n e = ground arith

-- The calls of free, and the transport.
destroy_frees :
    (o : Outcomes) (c : PeerConnection) (g : Globals)
    → length c.channels ≡ max_channel_num
    → (blocks : List Block) × (rtcdc_destroy_peer_connection o (some c) g
        ≡ some (blocks, if c.link.transport then destroy_rtcdc_transport o g else g))
      × ((b : Block) → frees_of b blocks ≡ held c b)
unfolding rtcdc_destroy_peer_connection
destroy_frees o c g size =
    let (texts, freed, counts) =
      channels_freed max_channel_num 0 c.channels (omega (arith, size)) in
    let last = texts ++ peer_block ∷ [] in
    (
      free_if c.stun_server stun_text ++ last,
      rw freed refl,
      λ b. held_once c b (frees_of b (free_if c.stun_server stun_text ++ last)) (
          omega (
            arith,
            frees_of-append b (free_if c.stun_server stun_text) last,
            frees_of-append b texts (peer_block ∷ []),
            frees_of-free_if b stun_text c.stun_server,
            counts b,
            held_between_all b c.channels max_channel_num size,
          )),
    )

fill_makes :
    (allocated : Bool) (a : Arguments) (text : Option Bytes) (c : PeerConnection)
    → fill allocated a text ≡ some c
    → (c.link.transport ≡ false) × (length c.channels ≡ max_channel_num)
unfolding fill
fill_makes allocated a text c e =
    let empty : Option Channel = none in ground (arith, length-replicate max_channel_num empty)

create_makes :
    (resolve : Bytes → Option Bytes) (allocated : Bool) (a : Arguments) (stun : Option Bytes)
    (c : PeerConnection)
    → create_with resolve allocated a stun ≡ some (some c)
    → (c.link.transport ≡ false) × (length c.channels ≡ max_channel_num)
unfolding create_with without_lookup
create_makes resolve allocated a none c e = fill_makes allocated a none c (cc)
create_makes resolve allocated a (some []) c e = ground arith
create_makes resolve allocated a (some (x ∷ name)) c e = elim (Option-cases (resolve (x ∷ name))) [
  | inl unknown_name ↦ ground arith
  | inr (address, known) ↦ fill_makes allocated a (some address) c (ground arith)
]

-- If a peer connection is made, its transport is made where `n` transports were in use, and channels are
-- opened, then its destruction runs to the end: the context and the counters of the library are as before
-- the transport, and free is called exactly once with the peer, the text of its STUN server if it has
-- one, and each label and each protocol that a channel of the table has, and with no other text of them.
pub connection_life :
    (resolve : Bytes → Option Bytes) (allocated : Bool) (a : Arguments) (c : PeerConnection) (n : ℕ)
    (o later : Outcomes) (role : Role) (l : Link) (g h : Globals) (opened : List (Option Channel))
    → rtcdc_create_peer_connection resolve allocated a ≡ some (some c)
    → IsCounted n g
    → create_rtcdc_transport o c.link role g ≡ (success, (l, h))
    → length opened ≡ length c.channels
    → let used : PeerConnection = record c { link = l; channels = opened } in
      (blocks : List Block) × (after : Globals) × (rtcdc_destroy_peer_connection later (some used) h
        ≡ some (blocks, after))
      × IsSame after g
      × ((b : Block) → frees_of b blocks ≡ held used b)
unfolding rtcdc_create_peer_connection
connection_life resolve allocated a c n o later role l g h opened made counted linked size =
    let (free, slots) = create_makes resolve allocated a a.stun_server c made in
    let (shape, _, _, same) = create_destroy n o later c.link l role g h counted free linked in
    let used : PeerConnection = record c { link = l; channels = opened } in
    let (blocks, run, counts) = destroy_frees later used h (omega (arith, size, slots)) in
    let there : l.transport ≡ true = ap (λ (k : Link). k.transport) shape in
    (
      blocks,
      destroy_rtcdc_transport later h,
      run
          ∙ ap (λ (b : Bool). some (blocks, if b then destroy_rtcdc_transport later h else h))
              there,
      same,
      counts,
    )
