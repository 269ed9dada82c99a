-- ===== src/Client/Waiting.antt =====
-- How a call of the client ends: by its own answer, and by nothing else.
use librtcdc.Base.{
  ℕ, ◌≡◌, refl, ap, sym, ◌∙◌, true, false, none, some, List, [], ◌∷◌, ◌++◌, append-nil,
  append_assoc, Bytes, All, arith, lt→ltb, length, ◌<◌,
}
use librtcdc.Meta.Json.{Json, number_of, metadata_type}
use librtcdc.Meta.Store.{
  MetadataType, code, fs_upload_ready, fs_download_ready, sy_init, sy_init_ok, sy_connect,
  sy_connect_ok, sy_status, sy_status_ok, sy_upload, sy_download, sy_cleanup, sy_cleanup_ok,
}
use librtcdc.Meta.Database.{WriteData, strcpy}
use librtcdc.Meta.Server.{write_data_size}
use librtcdc.Client.{
  Reason, client_established, client_connection_error, closed, client_writeable, other_reason,
  client_receive, Connection, same_type, is_request, answer_type, keep_answer, write_request,
  callback_client, wait_for, request,
}

-- The requests, each with the answer that its call waits for.
pub data IsCall : MetadataType → MetadataType → Type 0 where
  init_call : IsCall sy_init sy_init_ok
  connect_call : IsCall sy_connect sy_connect_ok
  status_call : IsCall sy_status sy_status_ok
  upload_call : IsCall sy_upload fs_upload_ready
  download_call : IsCall sy_download fs_download_ready
  cleanup_call : IsCall sy_cleanup sy_cleanup_ok

call_sends : (t a : MetadataType) → IsCall t a → is_request t ≡ true
unfolding is_request code
call_sends _ _ init_call = refl
call_sends _ _ connect_call = refl
call_sends _ _ status_call = refl
call_sends _ _ upload_call = refl
call_sends _ _ download_call = refl
call_sends _ _ cleanup_call = refl

call_waits : (t a : MetadataType) → IsCall t a → same_type t a ≡ false
unfolding code
call_waits _ _ init_call = refl
call_waits _ _ connect_call = refl
call_waits _ _ status_call = refl
call_waits _ _ upload_call = refl
call_waits _ _ download_call = refl
call_waits _ _ cleanup_call = refl

call_kept : (t a : MetadataType) → IsCall t a → answer_type (code a) ≡ some a
unfolding answer_type code
call_kept _ _ init_call = refl
call_kept _ _ connect_call = refl
call_kept _ _ status_call = refl
call_kept _ _ upload_call = refl
call_kept _ _ download_call = refl
call_kept _ _ cleanup_call = refl

same_type_refl : (t : MetadataType) → same_type t t ≡ true
same_type_refl t = ground arith

-- What the writeable callbacks write while the data stays.
abbrev pub writings : WriteData → List Reason → List (ℕ × Bytes)
writings w [] = []
writings w (client_established ∷ rs) = writings w rs
writings w (client_connection_error ∷ rs) = writings w rs
writings w (closed ∷ rs) = writings w rs
writings w (client_writeable ∷ rs) = (w.target_wsi, w.content) ∷ writings w rs
writings w (other_reason ∷ rs) = writings w rs
writings w (client_receive raw ∷ rs) = writings w rs

abbrev pub waiting : (wsi : ℕ) → MetadataType → Bytes → WriteData
waiting wsi t sent = record { target_wsi = wsi; type = t; content = sent }

module _ {E : Type 0} (json : Json E) where
  -- A callback that keeps no answer: no message, or one of a type that is not in the switch.
  abbrev pub IsQuiet : Reason → Type 0
  IsQuiet client_established = Unit
  IsQuiet client_connection_error = Unit
  IsQuiet closed = Unit
  IsQuiet client_writeable = Unit
  IsQuiet other_reason = Unit
  IsQuiet (client_receive raw) =
      (msg : E) × (n : ℕ) × (json.loads raw ≡ some msg)
      × (number_of json msg metadata_type ≡ some n)
      × (answer_type n ≡ none)

  quiet_step :
      (r : Reason) (c : Connection)
      → IsQuiet r
      → is_request c.write_data.type ≡ true
      → callback_client json r c
        ≡ some (false, record c { written = c.written ++ writings c.write_data (r ∷ []) })
  unfolding callback_client write_request keep_answer
  quiet_step client_established c h sends = rw (append-nil c.written) refl
  quiet_step client_connection_error c h sends = rw (append-nil c.written) refl
  quiet_step closed c h sends = rw (append-nil c.written) refl
  quiet_step client_writeable c h sends = rw sends refl
  quiet_step other_reason c h sends = rw (append-nil c.written) refl
  quiet_step (client_receive raw) c (msg, n, loaded, typed, none_kept) sends =
      rw (append-nil c.written, loaded, typed, none_kept) refl

  writings_more :
      (w : WriteData) (r : Reason) (rs : List Reason)
      → writings w (r ∷ []) ++ writings w rs ≡ writings w (r ∷ rs)
  writings_more w client_established rs = refl
  writings_more w client_connection_error rs = refl
  writings_more w closed rs = refl
  writings_more w client_writeable rs = refl
  writings_more w other_reason rs = refl
  writings_more w (client_receive raw) rs = refl

  abbrev after_quiet : Connection → List Reason → Connection
  after_quiet c rs = record c { written = c.written ++ writings c.write_data rs }

  quiet_prefix :
      (a : MetadataType) (before after : List Reason) (c : Connection)
      → All IsQuiet before
      → is_request c.write_data.type ≡ true
      → same_type c.write_data.type a ≡ false
      → wait_for json a (before ++ after) c ≡ wait_for json a after (after_quiet c before)
  unfolding wait_for
  quiet_prefix a [] after c h sends other = rw (append-nil c.written) refl
  quiet_prefix a (r ∷ before) after c h sends other =
      let step = quiet_step r c h.0 sends in
      let next = after_quiet c (r ∷ []) in
      let rest = quiet_prefix a before after next h.1 sends other in
      let joined : next.written ++ writings c.write_data before
          ≡ c.written ++ writings c.write_data (r ∷ before) =
        append_assoc c.written (writings c.write_data (r ∷ [])) (writings c.write_data before)
        ∙ ap (◌++◌ c.written) (writings_more c.write_data r before) in
      rw (other, step, rest, joined) refl

  answer_step :
      (a : MetadataType) (raw : Bytes) (msg : E) (after : List Reason) (c : Connection)
      → json.loads raw ≡ some msg
      → number_of json msg metadata_type ≡ some (code a)
      → answer_type (code a) ≡ some a
      → length raw < write_data_size
      → same_type c.write_data.type a ≡ false
      → wait_for json a (client_receive raw ∷ after) c
        ≡ some (true, record c { write_data = waiting 0 a raw })
  unfolding wait_for callback_client keep_answer strcpy
  answer_step a raw msg [] c loaded typed kept room other =
      let fits = lt→ltb (length raw) write_data_size room in
      let own = same_type_refl a in rw (other, loaded, typed, kept, fits, own) refl
  answer_step a raw msg (r ∷ after) c loaded typed kept room other =
      let fits = lt→ltb (length raw) write_data_size room in
      let own = same_type_refl a in rw (other, loaded, typed, kept, fits, own) refl

  -- If the request fits its buffer, and a message of the type that its call waits for arrives that fits
  -- too, with no other answer before it, then the call ends with the text of that message, whatever
  -- callbacks follow; and the request was written to its target once for each writeable callback before.
  pub request_answered :
      (wsi : ℕ) (t a : MetadataType) (sent raw : Bytes) (msg : E) (before after : List Reason)
      → IsCall t a
      → length sent < write_data_size
      → All IsQuiet before
      → json.loads raw ≡ some msg
      → number_of json msg metadata_type ≡ some (code a)
      → length raw < write_data_size
      → request json wsi t a sent (before ++ client_receive raw ∷ after)
        ≡ some (
          some raw,
          record { write_data = waiting 0 a raw; written = writings (waiting wsi t sent) before },
        )
  unfolding request strcpy
  request_answered wsi t a sent raw msg before after call room quiet loaded typed room_raw =
      let fits = lt→ltb (length sent) write_data_size room in
      let start : Connection = record { write_data = waiting wsi t sent; written = [] } in
      let until =
        quiet_prefix a before (client_receive raw ∷ after) start quiet (call_sends t a call)
          (call_waits t a call) in
      let ends =
        answer_step a raw msg after (after_quiet start before) loaded typed (call_kept t a call)
          room_raw (call_waits t a call) in
      rw (fits, until, ends) refl

  -- While no answer of any type arrives, whatever else does, the call waits: there is no other way out
  -- of its loop, also when the connection is closed or fails.
  pub request_waits :
      (wsi : ℕ) (t a : MetadataType) (sent : Bytes) (rs : List Reason)
      → IsCall t a
      → length sent < write_data_size
      → All IsQuiet rs
      → request json wsi t a sent rs
        ≡ some (
          none,
          record { write_data = waiting wsi t sent; written = writings (waiting wsi t sent) rs },
        )
  unfolding request strcpy wait_for
  request_waits wsi t a sent rs call room quiet =
      let fits = lt→ltb (length sent) write_data_size room in
      let start : Connection = record { write_data = waiting wsi t sent; written = [] } in
      let until = quiet_prefix a rs [] start quiet (call_sends t a call) (call_waits t a call) in
      let ends : wait_for json a [] (after_quiet start rs) ≡ some (false, after_quiet start rs) =
        rw (call_waits t a call) refl in
      let waited = ap (λ x. wait_for json a x start) (sym (append-nil rs)) ∙ until ∙ ends in
      rw (fits, waited) refl
