-- ===== src/FileServer/Answering.antt =====
-- What the file server writes.
use librtcdc.Base.{◌≡◌, ◌≢◌, refl, ap, ◌∙◌, some, [], ◌∷◌, ◌++◌, Bytes, ◌>>=◌}
use librtcdc.Meta.Database.{WriteData}
use librtcdc.FileServer.{Host, write_answer, on_writeable_host}

module _ {C : Type 0} where
  write_answer_once :
      (w : WriteData) (content : Bytes) (m : Host C)
      → content ≢ []
      → write_answer w content m ≡ record m {
        written = m.written ++ (w.target_wsi, content) ∷ [];
        write_data = some (record w { content = [] });
      }
  unfolding write_answer
  write_answer_once w [] m h = absurd (h refl)
  write_answer_once w (c ∷ content) m h = refl

  -- The text that waits is written to its target at the next writeable callback; at one more, nothing is
  -- written.
  pub written_once :
      (m : Host C) (w : WriteData)
      → m.write_data ≡ some w
      → w.content ≢ []
      → (n : Host C) × (on_writeable_host m ≡ some n)
        × (n.written ≡ m.written ++ (w.target_wsi, w.content) ∷ [])
        × (on_writeable_host n ≡ some n)
  unfolding on_writeable_host write_answer
  written_once m w there some_text =
      let n : Host C = record m {
        written = m.written ++ (w.target_wsi, w.content) ∷ [];
        write_data = some (record w { content = [] });
      } in
      let once = write_answer_once w w.content m some_text in
      let wrote = ap (λ d. d >>= λ v. some (write_answer v v.content m)) there in
      (n, wrote ∙ ap some once, refl, refl)
