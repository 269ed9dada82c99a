-- ===== src/Tests/Rounding.antt =====
-- A status round of two files each, through the database.
use librtcdc.Base.{ℕ, ◌≡◌, refl, some, List, [], ◌∷◌, Bytes, codes, arith}
use librtcdc.Meta.Json.{
  Json, IsJson, array, text_of, array_of, files, filename, client_checksum, fs_checksum,
}
use librtcdc.Meta.Store.{sy_status, sy_status_ok, SessionDoc, FileServer, UriInfo}
use librtcdc.Meta.Database.{Driver, Server, session_info, strcpy, checksum_elements}
use librtcdc.Meta.Sync.{on_sy_status, on_fs_status_ok}
use librtcdc.Meta.Rounds.{last_checksum, first_checksum}
use librtcdc.Meta.Diff.{expected, code_of, first_status, IsSummed}
use librtcdc.Meta.Status.{status_request, status_report}
use librtcdc.Meta.Reporting.{IsRound, status_round}
use librtcdc.Tests.Objects.{Object, objects, objects-IsJson, documents-IsCollection}
use librtcdc.Tests.Serving.{lib, serving, session, info, about}
use librtcdc.Tests.Joining.{entry, served, local}

-- The one array that is read is the one that was stored.
abbrev storing : Json Object
storing = record objects { loads_array = λ t. some local }

storing-IsJson : IsJson storing
storing-IsJson = record {
  get-blank = objects-IsJson.get-blank;
  get-put = objects-IsJson.get-put;
  get-put_ne = objects-IsJson.get-put_ne;
}

abbrev keeper : Driver Object (List (SessionDoc Object)) (List FileServer) (List UriInfo)
keeper = record lib { json = storing }

abbrev about_files : List Object → Object
about_files es = objects.put (about (codes "s1")) files (array es)

fs_entry-IsSummed :
    (name : Bytes) (c : ℕ) (checksum : Bytes)
    → IsSummed storing fs_checksum (entry fs_checksum name (c ∷ checksum))
unfolding text_of
fs_entry-IsSummed name c checksum = record {
  listed = record { name = name; checksum = c ∷ checksum; has_name = refl; has_checksum = refl };
  not_blank = λ e. cc;
}

client_entry-IsSummed :
    (name : Bytes) (c : ℕ) (checksum : Bytes)
    → IsSummed storing client_checksum (entry client_checksum name (c ∷ checksum))
unfolding text_of
client_entry-IsSummed name c checksum = record {
  listed = record { name = name; checksum = c ∷ checksum; has_name = refl; has_checksum = refl };
  not_blank = λ e. cc;
}

serving-IsRound : IsRound keeper serving session info (codes "s1") local served
unfolding session_info strcpy checksum_elements text_of
serving-IsRound = record {
  found = refl;
  read = refl;
  takes = λ change s e there. (_, refl);
  request_fits = omega arith;
  room = λ stored kept. (omega arith, kept);
  report_fits = λ stored joined ds kept join compared. omega arith;
}

status_round_example :
    (asked : Server (List (SessionDoc Object)) (List FileServer) (List UriInfo))
    × (reported : Server (List (SessionDoc Object)) (List FileServer) (List UriInfo)) × (ds : List
        Object)
    × (on_sy_status keeper 5000 (about_files local) serving ≡ some asked)
    × (asked.write_data 5000 ≡ record {
      target_wsi = 8192;
      type = sy_status;
      content = storing.dumps (status_request keeper (codes "s1") (codes "repo"));
    })
    × (on_fs_status_ok keeper 8192 (about_files served) asked ≡ some reported)
    × (reported.write_data 8192 ≡ record {
      target_wsi = 5000;
      type = sy_status_ok;
      content = storing.dumps (status_report keeper (codes "s1") ds);
    })
    × ((n : Bytes)
        → first_status storing n ds
          ≡ code_of (
              expected
                (last_checksum storing filename client_checksum n local)
                (first_checksum storing filename fs_checksum n served)))
unfolding text_of array_of
status_round_example =
    status_round keeper storing-IsJson serving (about_files local) (about_files served) 5000 8192
      session info (codes "s1") local served documents-IsCollection serving-IsRound (omega arith)
      refl refl refl refl
      (client_entry-IsSummed (codes "a") 49 [], (client_entry-IsSummed (codes "c") 51 [], tt))
      (fs_entry-IsSummed (codes "a") 49 [], (fs_entry-IsSummed (codes "b") 50 [], tt))
