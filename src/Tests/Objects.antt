-- ===== src/Tests/Objects.antt =====
-- Objects and collections as lists: what the interfaces of the metadata server promise, they keep.
use librtcdc.Base.{
  ℕ, zero, suc, ◌≡◌, ◌≢◌, refl, ap, Bool, true, false, Option, none, some, List, [], ◌∷◌, Bytes,
  codes, if◌then◌else◌, ◌==◌, arith,
}
use librtcdc.Meta.Json.{
  Key, metadata_type, fileserver_dns, session_id, repo_name, uri_code, files, diff, filename, dirty,
  client_checksum, fs_checksum, client_sdp, client_candidates, fs_sdp, fs_candidates, api_key,
  token, Value, text, number, array, Json, IsJson,
}
use librtcdc.Meta.Store.{Collection, IsCollection}

mutual
  pub data Object : Type 0 where
    empty : Object
    with_member : Key → Member → Object → Object

  pub data Member : Type 0 where
    a_text : Bytes → Member
    a_number : ℕ → Member
    an_array : Objects → Member

  pub data Objects : Type 0 where
    no_more : Objects
    one_more : Object → Objects → Objects

abbrev from_list : List Object → Objects
from_list [] = no_more
from_list (e ∷ es) = one_more e (from_list es)

abbrev to_list : Objects → List Object
to_list no_more = []
to_list (one_more e es) = e ∷ to_list es

to_list-from_list : (es : List Object) → to_list (from_list es) ≡ es
to_list-from_list [] = refl
to_list-from_list (e ∷ es) = ap (◌∷◌ e) (to_list-from_list es)

abbrev to_member : Value Object → Member
to_member (text t) = a_text t
to_member (number n) = a_number n
to_member (array es) = an_array (from_list es)

abbrev of_member : Member → Value Object
of_member (a_text t) = text t
of_member (a_number n) = number n
of_member (an_array es) = array (to_list es)

of_member-to_member : (v : Value Object) → of_member (to_member v) ≡ v
of_member-to_member (text t) = refl
of_member-to_member (number n) = refl
of_member-to_member (array es) = ap array (to_list-from_list es)

abbrev pub key_code : Key → ℕ
key_code metadata_type = 0
key_code fileserver_dns = 1
key_code session_id = 2
key_code repo_name = 3
key_code uri_code = 4
key_code files = 5
key_code diff = 6
key_code filename = 7
key_code dirty = 8
key_code client_checksum = 9
key_code fs_checksum = 10
key_code client_sdp = 11
key_code client_candidates = 12
key_code fs_sdp = 13
key_code fs_candidates = 14
key_code api_key = 15
key_code token = 16

abbrev pub all_keys : List Key
all_keys =
    metadata_type ∷ fileserver_dns ∷ session_id ∷ repo_name ∷ uri_code ∷ files ∷ diff ∷ filename
    ∷ dirty ∷ client_checksum ∷ fs_checksum ∷ client_sdp ∷ client_candidates ∷ fs_sdp
    ∷ fs_candidates ∷ api_key ∷ token ∷ []

abbrev pub key_at : ℕ → List Key → Key
key_at n [] = metadata_type
key_at zero (k ∷ ks) = k
key_at (suc n) (k ∷ ks) = key_at n ks

key_at-key_code : (k : Key) → key_at (key_code k) all_keys ≡ k
key_at-key_code metadata_type = refl
key_at-key_code fileserver_dns = refl
key_at-key_code session_id = refl
key_at-key_code repo_name = refl
key_at-key_code uri_code = refl
key_at-key_code files = refl
key_at-key_code diff = refl
key_at-key_code filename = refl
key_at-key_code dirty = refl
key_at-key_code client_checksum = refl
key_at-key_code fs_checksum = refl
key_at-key_code client_sdp = refl
key_at-key_code client_candidates = refl
key_at-key_code fs_sdp = refl
key_at-key_code fs_candidates = refl
key_at-key_code api_key = refl
key_at-key_code token = refl

key_code_injective : (k l : Key) → key_code k ≡ key_code l → k ≡ l
key_code_injective k l e = ground (arith, key_at-key_code k, key_at-key_code l)

abbrev get_member : Object → Key → Option (Value Object)
get_member empty k = none
get_member (with_member l v e) k =
    let rest = get_member e k in if key_code l == key_code k then some (of_member v) else rest

abbrev pub objects : Json Object
objects = record {
  blank = empty;
  get = get_member;
  put = λ e k v. with_member k (to_member v) e;
  loads = λ t. none;
  dumps = λ e. codes "{}";
  loads_array = λ t. some [];
  dumps_array = λ es. codes "[]";
}

get_member_ne :
    (e : Object) (k l : Key) (v : Value Object)
    → k ≢ l
    → get_member (with_member k (to_member v) e) l ≡ get_member e l
get_member_ne e k l v h = let apart = key_code_injective k l in ground (arith, apart, h)

get_member_same :
    (e : Object) (k : Key) (v : Value Object)
    → get_member (with_member k (to_member v) e) k ≡ some v
get_member_same e k v = let back = of_member-to_member v in ground (arith, back)

pub objects-IsJson : IsJson objects
objects-IsJson = record {
  get-blank = λ k. refl;
  get-put = get_member_same;
  get-put_ne = get_member_ne;
}

module _ {D : Type 0} where
  abbrev insert_last : D → List D → List D
  insert_last d [] = d ∷ []
  insert_last d (e ∷ s) = e ∷ insert_last d s

  abbrev find_first : (D → Bool) → List D → Option D
  find_first q [] = none
  find_first q (e ∷ s) = let rest = find_first q s in if q e then some e else rest

  abbrev update_first : (D → Bool) → (D → D) → List D → List D
  update_first q f [] = []
  update_first q f (e ∷ s) = let rest = update_first q f s in if q e then f e ∷ s else e ∷ rest

  abbrev remove_first : (D → Bool) → List D → List D
  remove_first q [] = []
  remove_first q (e ∷ s) = let rest = remove_first q s in if q e then s else e ∷ rest

  find_first-holds : (q : D → Bool) (d : D) (s : List D) → find_first q s ≡ some d → q d ≡ true
  find_first-holds q d [] h = cc
  find_first-holds q d (e ∷ s) h = let rest = find_first-holds q d s in ground (arith, rest)

  find_first-insert_old :
      (q : D → Bool) (d e : D) (s : List D)
      → find_first q s ≡ some e
      → find_first q (insert_last d s) ≡ some e
  find_first-insert_old q d e [] h = cc
  find_first-insert_old q d e (x ∷ s) h =
      let rest = find_first-insert_old q d e s in ground (arith, rest)

  find_first-insert_new :
      (q : D → Bool) (d : D) (s : List D)
      → find_first q s ≡ none
      → q d ≡ true
      → find_first q (insert_last d s) ≡ some d
  find_first-insert_new q d [] h k = ground arith
  find_first-insert_new q d (x ∷ s) h k =
      let rest = find_first-insert_new q d s in ground (arith, rest)

  find_first-update :
      (q : D → Bool) (f : D → D) (d : D) (s : List D)
      → find_first q s ≡ some d
      → q (f d) ≡ true
      → find_first q (update_first q f s) ≡ some (f d)
  find_first-update q f d [] h k = cc
  find_first-update q f d (x ∷ s) h k = let rest = find_first-update q f d s in ground (arith, rest)

  find_first-update_ne :
      (q r : D → Bool) (f : D → D) (s : List D)
      → ((d : D) → r d ≡ true → q d ≡ false)
      → ((d : D) → r (f d) ≡ r d)
      → find_first r (update_first q f s) ≡ find_first r s
  find_first-update_ne q r f [] h k = refl
  find_first-update_ne q r f (x ∷ s) h k =
      let rest = find_first-update_ne q r f s h k in
      let apart = h x in let same = k x in ground (arith, rest, apart, same)

  find_first-remove_ne :
      (q r : D → Bool) (s : List D)
      → ((d : D) → r d ≡ true → q d ≡ false)
      → find_first r (remove_first q s) ≡ find_first r s
  find_first-remove_ne q r [] h = refl
  find_first-remove_ne q r (x ∷ s) h =
      let rest = find_first-remove_ne q r s h in let apart = h x in ground (arith, rest, apart)

  abbrev pub documents : Collection D (List D)
  documents = record {
    insert = λ d s. some (insert_last d s);
    find = find_first;
    update = λ q f s. some (update_first q f s);
    remove = remove_first;
  }

  pub documents-IsCollection : IsCollection documents
  documents-IsCollection = record {
    find-holds = find_first-holds;
    find-insert_old =
        λ q d e s t made old. let kept = find_first-insert_old q d e s old in ground (arith, kept);
    find-insert_new = λ q d s t made unknown hit.
        let new = find_first-insert_new q d s unknown hit in ground (arith, new);
    find-update = λ q f d s t made old hit.
        let new = find_first-update q f d s old hit in ground (arith, new);
    find-update_ne = λ q r f s t made apart same.
        let kept = find_first-update_ne q r f s apart same in ground (arith, kept);
    find-remove_ne = find_first-remove_ne;
  }
