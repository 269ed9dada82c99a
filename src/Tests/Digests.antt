-- ===== src/Tests/Digests.antt =====
-- Two different files of the same length.
use librtcdc.Base.{◌≡◌, refl, some, [], ◌++◌, Bytes, codes}
use librtcdc.Transfer.{clean}
use librtcdc.Meta.Join.{status_of}
use librtcdc.Checksum.{Md5, gen_md5, same_length_clean}

-- A digest that tells all texts apart.
abbrev pub whole : Md5 Bytes
whole = record { init = []; update = λ ctx text. ctx ++ text; final = λ ctx. ctx }

same_length_clean_example :
    (digest : Bytes) × (gen_md5 whole (some (codes "one")) ≡ some digest)
    × (gen_md5 whole (some (codes "two")) ≡ some digest)
    × (status_of digest digest ≡ clean)
same_length_clean_example = same_length_clean whole (codes "one") (codes "two") refl
