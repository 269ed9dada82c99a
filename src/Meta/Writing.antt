-- ===== src/Meta/Writing.antt =====
-- The writeable callback of APIs/ms/metadata_server.c.
use librtcdc.Base.{ℕ, ◌≡◌, ◌≢◌, ◌∙◌, refl, [], ◌∷◌, ◌++◌, Bytes, arith, append_assoc}
use librtcdc.Meta.Database.{Driver, Server, WriteData}
use librtcdc.Meta.Callback.{on_writeable, write_content}

module _ {E S F U : Type 0} (lib : Driver E S F U) where
  write_content-written :
      (wsi : ℕ) (w : WriteData) (content : Bytes) (m : Server S F U)
      → content ≢ []
      → (write_content lib wsi w content m).written ≡ m.written ++ (w.target_wsi, content) ∷ []
  unfolding write_content
  write_content-written wsi w [] m h = absurd (h refl)
  write_content-written wsi w (c ∷ content) m h = refl

  writes :
      (wsi : ℕ) (m : Server S F U)
      → (m.write_data wsi).content ≢ []
      → (on_writeable lib wsi m).written
        ≡ m.written ++ ((m.write_data wsi).target_wsi, (m.write_data wsi).content) ∷ []
  unfolding on_writeable
  writes wsi m h = write_content-written wsi (m.write_data wsi) (m.write_data wsi).content m h

  waits :
      (wsi : ℕ) (m : Server S F U)
      → (on_writeable lib wsi m).write_data wsi ≡ record (m.write_data wsi) { target_wsi = 0 }
  unfolding on_writeable
  waits wsi m = ground arith

  -- The text that waits is written to its target; but it stays, and at the next writeable callback
  -- of the connection it is written again, to NULL.
  pub written_again :
      (wsi : ℕ) (m : Server S F U)
      → (m.write_data wsi).content ≢ []
      → ((on_writeable lib wsi (on_writeable lib wsi m)).written
          ≡ m.written
            ++ ((m.write_data wsi).target_wsi, (m.write_data wsi).content)
              ∷ (0, (m.write_data wsi).content)
              ∷ [])
  written_again wsi m h =
      let after = on_writeable lib wsi m in
      let kept = waits wsi m in
      let once = writes wsi m h in
      let twice = writes wsi after (rw kept h) in
      twice ∙ rw (kept, once) (append_assoc m.written _ _)
