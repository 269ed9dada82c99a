-- ===== src/Meta/Json.antt =====
-- The JSON objects of the jansson library, as the servers use them: an interface, with its laws.
use librtcdc.Base.{ℕ, ◌≡◌, ◌≢◌, Option, none, some, List, [], Bytes}

-- The keys that the programs use.
pub data Key : Type 0 where
  metadata_type fileserver_dns session_id repo_name uri_code : Key
  files diff filename dirty client_checksum fs_checksum client_sdp client_candidates : Key
  fs_sdp fs_candidates api_key token : Key

pub data Value (E : Type 0) : Type 0 where
  text : Bytes → Value E
  number : ℕ → Value E
  array : List E → Value E

-- json_object, json_object_get, json_object_set on a copy, json_loads and json_dumps, and the last two
-- for arrays.
pub record Json (E : Type 0) : Type 0 where
  pub blank : E
  pub get : E → Key → Option (Value E)
  pub put : E → Key → Value E → E
  pub loads : Bytes → Option E
  pub dumps : E → Bytes
  pub loads_array : Bytes → Option (List E)
  pub dumps_array : List E → Bytes

-- What was set under a key is there, and the other keys keep what they had.
pub record IsJson {E : Type 0} (json : Json E) : Type 0 where
  pub get-blank : (k : Key) → json.get json.blank k ≡ none
  pub get-put : (e : E) (k : Key) (v : Value E) → json.get (json.put e k v) k ≡ some v
  pub get-put_ne :
      (e : E) (k l : Key) (v : Value E) → k ≢ l → json.get (json.put e k v) l ≡ json.get e l

-- json_string_value(json_object_get(e, k)), where NULL faults when it is used.
unfoldable pub text_of : {E : Type 0} → Json E → E → Key → Option Bytes
text_of json e k = elim (json.get e k) [
  | none ↦ none
  | some (text t) ↦ some t
  | some (number n) ↦ none
  | some (array es) ↦ none
]

unfoldable pub number_of : {E : Type 0} → Json E → E → Key → Option ℕ
number_of json e k = elim (json.get e k) [
  | none ↦ none
  | some (text t) ↦ none
  | some (number n) ↦ some n
  | some (array es) ↦ none
]

-- json_object_get, where json_array_foreach takes what is not an array for an empty one.
unfoldable pub array_of : {E : Type 0} → Json E → E → Key → List E
array_of json e key = elim (json.get e key) [
  | none ↦ []
  | some (text t) ↦ []
  | some (number n) ↦ []
  | some (array es) ↦ es
]

-- json_object_set_new with json_string, which does nothing for NULL.
abbrev pub put_text : {E : Type 0} → Json E → E → Key → Option Bytes → E
put_text json e key none = e
put_text json e key (some t) = json.put e key (text t)
