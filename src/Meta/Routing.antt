-- ===== src/Meta/Routing.antt =====
-- Where the metadata server sends what it receives.
use librtcdc.Base.{ℕ, ◌<◌, ◌≡◌, true, some, [], ◌∷◌, ◌++◌, Bytes, length, arith}
use librtcdc.Meta.Store.{MetadataType, SessionDoc, SessionInfo, to_int32, of_int32}
use librtcdc.Meta.Database.{
  Driver, Server, client_wsi, has_id, strcpy, set_field, set_session, update_session, session_info,
  get_session,
}
use librtcdc.Meta.Server.{post, set_write_data, write_data_size}

module _ {E S F U : Type 0} (lib : Driver E S F U) where
  -- The server when the text waits to be written.
  abbrev pub posted : (wsi target : ℕ) → MetadataType → Bytes → Server S F U → Server S F U
  posted wsi target type content m = record m {
    write_data =
        set_write_data wsi (record { target_wsi = target; type = type; content = content })
          m.write_data;
    on_writable = m.on_writable ++ wsi ∷ [];
  }

  pub post_fits :
      (wsi target : ℕ) (type : MetadataType) (content : Bytes) (m : Server S F U)
      → length content < write_data_size
      → post lib wsi target type content m ≡ some (posted wsi target type content m)
  unfolding post strcpy
  post_fits wsi target type content m h = ground arith

  pub posted-write_data :
      (wsi target : ℕ) (type : MetadataType) (content : Bytes) (m : Server S F U)
      → (posted wsi target type content m).write_data wsi
        ≡ record { target_wsi = target; type = type; content = content }
  posted-write_data wsi target type content m = ground arith

  pub get_session_found :
      (id : Bytes) (d : SessionDoc E) (info : SessionInfo) (m : Server S F U)
      → lib.sessions.find (has_id lib id) m.sessions ≡ some d
      → session_info lib id d ≡ some info
      → get_session lib id m ≡ some (some info)
  unfolding get_session
  get_session_found id d info m found read = rw (get_session, found) (ground (arith, read))

  -- Another connection of the client changes just that in what is read back.
  pub session_info_moved :
      (id : Bytes) (d : SessionDoc E) (info : SessionInfo) (w : ℕ)
      → session_info lib id d ≡ some info
      → session_info lib id (record d { client_wsi = w })
        ≡ some (record info { client_wsi = of_int32 w })
  unfolding session_info
  session_info_moved id d info w h = ground arith

  pub update_client_wsi :
      (id : Bytes) (w : ℕ) (m : Server S F U) (t : S)
      → lib.sessions.update (has_id lib id) (λ d. record d { client_wsi = to_int32 w }) m.sessions
        ≡ some t
      → update_session lib id (client_wsi w) m ≡ some (true, record m { sessions = t })
  unfolding update_session set_field set_session
  update_client_wsi id w m t h = ground arith
