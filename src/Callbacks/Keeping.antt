-- ===== src/Callbacks/Keeping.antt =====
-- What the callbacks of the file service leave as it is at a peer.
use librtcdc.Base.{
  ℕ, ◌<◌, length, ◌≡◌, refl, ap, ◌∙◌, ◌⊎◌, Bool-cases, Option, some, arith, ◌==◌, get_elem?, All,
  List, [], ◌∷◌, zero, suc, inl, inr, Option-cases,
}
use librtcdc.Peer.{
  Channel, Event, sendv, on_channel, on_open, on_message, Peer, Env, max_channel_num,
}
use librtcdc.Dcep.{install}
use librtcdc.Dcep.Invariant.{IsChannel, IsSlot, IsTable, install-IsTable}
use librtcdc.Channel.Sids.{IsCursor, IsOrderly}
use librtcdc.Channel.Reach.{IsPolite}
use librtcdc.Callbacks.{
  with_channel, call_on_channel, upload_client_on_channel, download_client_on_channel,
  upload_fs_on_channel, download_fs_on_channel, call, serving, repo_path_at,
}
use librtcdc.Callbacks.Address

slot_at :
    (cs : List (Option Channel)) (i : ℕ) (c : Channel)
    → All IsSlot cs
    → get_elem? cs i ≡ some (some c)
    → IsChannel c
slot_at [] i c h e = cc
slot_at (x ∷ cs) zero c h e = ground arith
slot_at (x ∷ cs) (suc i) c h e = slot_at cs i c h.1 e

slot_inside :
    (cs : List (Option Channel)) (i : ℕ) (c : Channel)
    → get_elem? cs i ≡ some (some c)
    → i < length cs
slot_inside [] i c e = cc
slot_inside (x ∷ cs) zero c e = omega arith
slot_inside (x ∷ cs) (suc i) c e = omega (arith, slot_inside cs i c e)

with_channel_cases :
    (i : ℕ) (f : Channel → Channel) (p : Peer)
    → (with_channel i f p ≡ p)
      ⊎ ((c : Channel) × (get_elem? p.channels i ≡ some (some c))
          × (with_channel i f p ≡ install i (some (f c)) p))
unfolding with_channel
with_channel_cases i f p = elim (Option-cases (get_elem? p.channels i)) [
  | inl out ↦ inl (rw (out, with_channel) refl)
  | inr (slot, there) ↦ elim (Option-cases slot) [
    | inl empty ↦ inl (rw (there, with_channel) (rw empty refl))
    | inr (c, full) ↦ inr (c, there ∙ ap some full, rw (there, with_channel) (rw full refl))
  ]
]

-- The callback is set, and the user data.
set_callback :
    (c : Channel) (f u : ℕ)
    → IsChannel c
    → IsChannel (record c { on_message = some f; user_data = u })
set_callback c f u h = record {
  type = h.type;
  priority = h.priority;
  rtx = h.rtx;
  lifetime = h.lifetime;
  sid = h.sid;
  one_limit = h.one_limit;
}

-- A property that says at least that the table is in order, and that a new entry of the table keeps.
module _ (P : Peer → Type 0) (table : (p : Peer) → P p → IsTable p)
    (entry : (i : ℕ) (o : Option Channel) (p : Peer)
      → i < max_channel_num
      → IsSlot o
      → P p
      → P (install i o p)) where
  with_channel-keeps :
      (i : ℕ) (f : Channel → Channel) (p : Peer)
      → ((c : Channel) → IsChannel c → IsChannel (f c))
      → P p
      → P (with_channel i f p)
  with_channel-keeps i f p keeps h = elim (with_channel_cases i f p) [
    | inl same ↦ rw same h
    | inr (c, there, done) ↦ rw done (
        entry i (some (f c)) p (omega (arith, slot_inside p.channels i c there, (table p h).size))
          (keeps c (slot_at p.channels i c (table p h).slots there)) h)
  ]

  call_on_channel-keeps : (f i u : ℕ) (p : Peer) → P p → P (call_on_channel f i u p)
  unfolding call_on_channel upload_client_on_channel download_client_on_channel upload_fs_on_channel
      download_fs_on_channel
  call_on_channel-keeps f i u p h =
      let a =
        with_channel-keeps i _ p
          (λ c hc. set_callback c Address.upload_client_on_message_at c.user_data hc) h in
      let b =
        with_channel-keeps i _ p
          (λ c hc. set_callback c Address.download_client_on_message_at (repo_path_at u) hc) h in
      let d =
        with_channel-keeps i _ p
          (λ c hc. set_callback c Address.upload_fs_on_message_at (repo_path_at u) hc) h in
      let e =
        with_channel-keeps i _ p
          (λ c hc. set_callback c Address.download_fs_on_message_at c.user_data hc) h in
      elim (Bool-cases (f == Address.upload_client_on_channel_at)) [
        | inl yes_a ↦ rw yes_a a
        | inr no_a ↦ elim (Bool-cases (f == Address.download_client_on_channel_at)) [
          | inl yes_b ↦ rw (no_a, yes_b) b
          | inr no_b ↦ elim (Bool-cases (f == Address.upload_fs_on_channel_at)) [
            | inl yes_d ↦ rw (no_a, no_b, yes_d) d
            | inr no_d ↦ elim (Bool-cases (f == Address.download_fs_on_channel_at)) [
              | inl yes_e ↦ rw (no_a, no_b, no_d, yes_e) e
              | inr no_e ↦ rw (no_a, no_b, no_d, no_e) h
            ]
          ]
        ]
      ]

  pub call-keeps : (e : Event) (p : Peer) → P p → P (call e p)
  unfolding call
  call-keeps (sendv sid ppid msg) p h = h
  call-keeps (on_channel f i u) p h = call_on_channel-keeps f i u p h
  call-keeps (on_open f i u) p h = h
  call-keeps (on_message f i type msg u) p h = h

pub serving-IsPolite : (env : Env) → IsPolite (serving env)
serving-IsPolite env = record {
  keeps = λ e p t. call-keeps IsTable (λ p t. t) (λ i o p l h t. install-IsTable i o p l h t) e p t;
}

-- The callbacks of the file service, whatever they are called for, leave the table of channels in order and
-- the cursor of the stream ids where it was or further by an even number.
pub serving-IsOrderly : (env : Env) → IsOrderly (serving env)
serving-IsOrderly env = record {
  keeps = λ k n e p t.
      call-keeps (IsCursor k n) (λ p t. t.table)
        (λ i o p l h t. record { table = install-IsTable i o p l h t.table; at = t.at }) e p t;
}
