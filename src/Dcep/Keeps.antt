-- ===== src/Dcep/Keeps.antt =====
-- What the elementary changes of a peer keep, the handlers of src/dcep.c keep.
use librtcdc.Base.{ℕ, ◌<◌, ◌≡◌, refl, Option, none, some, [], ◌∷◌, Bytes, inl, inr}
use librtcdc.Peer.{
  Channel, Datatype, string, binary, empty, Event, Peer, Env, notify, notify_if, connected,
  send_sctp_message, first_free, max_channel_num,
}
use librtcdc.Dcep.{
  answer_open, accept_channel, acknowledge, deliver, handle_control, handle_rtcdc_open_request,
  handle_rtcdc_open_ack, handle_rtcdc_data, handle_rtcdc_message,
}
use librtcdc.Dcep.Invariant.{
  IsChannel, IsSlot, IsKept, IsBytes, find_sid-IsIn, free-IsIn, read_open-IsSized, set_state,
  allocate-IsSlot, accept_cases, open_cases, control_cases, message_cases, send_cases,
}

module _ (env : Env) (P : Peer → Type 0) (kept : IsKept env P) where
  pub notify_if-keeps : (f : Option ℕ) (e : ℕ → Event) (p : Peer) → P p → P (notify_if env f e p)
  unfolding notify_if notify
  notify_if-keeps none e p t = t
  notify_if-keeps (some f) e p t = kept.callback (e f) _ (kept.event (e f) p t)

  pub send-keeps :
      (p : Peer) (msg : Option Bytes) (sid ppid : ℕ)
      → P p
      → P (send_sctp_message env p msg sid ppid).1
  send-keeps p msg sid ppid t = elim (send_cases env p msg sid ppid) [
    | inl same ↦ rw same t
    | inr sent ↦ rw sent (kept.event (Event.sendv sid ppid msg) p t)
  ]

  answer_open-keeps : (p : Peer) (i sid : ℕ) → P p → P (answer_open env p i sid)
  unfolding answer_open
  answer_open-keeps p i sid t = send-keeps _ _ sid _ (notify_if-keeps _ _ p t)

  accept_channel-keeps :
      (p q : Peer) (sid : ℕ) (o : Option Channel)
      → P p
      → first_free p.channels < max_channel_num
      → IsSlot o
      → accept_channel env p sid o ≡ some q
      → P q
  accept_channel-keeps p q sid o t l h e = elim (accept_cases env p q sid o e) [
    | inl same ↦ rw same t
    | inr done ↦ rw done (answer_open-keeps _ _ sid (kept.entry _ o p l h t))
  ]

  handle_open-keeps :
      (p q : Peer) (sid : ℕ) (msg : Bytes)
      → P p
      → IsBytes msg
      → sid < 65536
      → handle_rtcdc_open_request env p sid msg ≡ some q
      → P q
  handle_open-keeps p q sid msg t hm hs e = elim (open_cases env p q sid msg e) [
    | inl same ↦ rw same t
    | inr (m, o, read, room, allocated, rest) ↦
        accept_channel-keeps p q sid o t (free-IsIn p (kept.table p t) room)
          (allocate-IsSlot env m sid o (read_open-IsSized msg m hm read) hs allocated) rest
  ]

  acknowledge-keeps :
      (p : Peer) (found : Option (ℕ × Channel))
      → P p
      → ((i : ℕ) (c : Channel) → found ≡ some (i, c) → (i < max_channel_num) × IsChannel c)
      → P (acknowledge env p found)
  unfolding acknowledge
  acknowledge-keeps p none t h = t
  acknowledge-keeps p (some (i, c)) t h =
      notify_if-keeps _ _ _
        (kept.entry i _ p (h i c refl).0 (set_state connected c (h i c refl).1) t)

  deliver-keeps :
      (p : Peer) (type : Datatype) (msg : Bytes) (found : Option (ℕ × Channel))
      → P p
      → ((i : ℕ) (c : Channel) → found ≡ some (i, c) → (i < max_channel_num) × IsChannel c)
      → P (deliver env p type msg found)
  unfolding deliver
  deliver-keeps p type msg none t h = t
  deliver-keeps p type msg (some (i, c)) t h =
      notify_if-keeps _ _ _ (kept.entry i _ p (h i c refl).0 (set_state _ c (h i c refl).1) t)

  data-keeps :
      (p : Peer) (sid : ℕ) (type : Datatype) (msg : Bytes)
      → P p
      → P (handle_rtcdc_data env p sid type msg)
  unfolding handle_rtcdc_data
  data-keeps p sid type msg t =
      deliver-keeps p type msg _ t (λ i c e. find_sid-IsIn p sid i c (kept.table p t) e)

  control-keeps :
      (p q : Peer) (sid : ℕ) (msg : Bytes)
      → P p
      → IsBytes msg
      → sid < 65536
      → handle_control env p sid msg ≡ some q
      → P q
  unfolding handle_control handle_rtcdc_open_ack
  control-keeps p q sid [] t hm hs e = cc
  control-keeps p q sid (b ∷ msg) t hm hs e = elim (control_cases env p q sid b msg e) [
    | inl opened ↦ handle_open-keeps p q sid (b ∷ msg) t hm hs opened
    | inr (inl acked) ↦
        rw acked (acknowledge-keeps p _ t (λ i c e. find_sid-IsIn p sid i c (kept.table p t) e))
    | inr (inr same) ↦ rw same t
  ]

  pub handle-keeps :
      (p q : Peer) (msg : Bytes) (ppid sid : ℕ)
      → P p
      → IsBytes msg
      → sid < 65536
      → handle_rtcdc_message env p msg ppid sid ≡ some q
      → P q
  handle-keeps p q msg ppid sid t hm hs e = elim (message_cases env p q msg ppid sid e) [
    | inl control ↦ control-keeps p q sid msg t hm hs control
    | inr (inl text) ↦ rw text (data-keeps p sid string msg t)
    | inr (inr (inl bytes)) ↦ rw bytes (data-keeps p sid binary msg t)
    | inr (inr (inr (inl nothing))) ↦ rw nothing (data-keeps p sid empty msg t)
    | inr (inr (inr (inr same))) ↦ rw same t
  ]
