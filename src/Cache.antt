-- ===== src/Cache.antt =====
-- crates/studio-router/src/cache.rs: the key of a request, and the cache on disk. The digest, the
-- JSON printer and the codec of a cache file are parameters.
pub mod Paths
pub mod Atomic
use cobrust_studio.Base.{
  ℕ, Bool, true, false, ◌||◌, ◌&&◌, Option, none, some, List, [], ◌∷◌, ◌++◌, map, Text, codes,
  eq_text, lt_text, is_empty, take, drop, Result, ok, err, ltb, ◌==◌, if◌then◌else◌,
}
use cobrust_studio.Json.{Value, string, array, object, number, pos_int, Fields, end, field, of_list}
use cobrust_studio.Provider.{
  Role, system, user, assistant, Message, SamplingParams, CompletionRequest, CompletionResponse,
}
use cobrust_studio.Host.{Host, FilePath, IoError, not_found, io_failed, Disk}
use cobrust_studio.Files
use cobrust_studio.Files.{Io, ◌>>=◌, ◌>>◌}

-- serde_json and blake3, as far as the cache calls them: the text of a value, the value of an `f32`
-- by its bits, the text of a cache file, its response read back, and the digest in hex.
pub record Codec : Type 0 where
  pub to_string : Value → Option Text
  pub f32_value : ℕ → Value
  pub digest : Text → Text
  pub encode_entry : CompletionRequest → CompletionResponse → Result Text Text
  pub decode_entry : Text → Result Text CompletionResponse

-- `BTreeMap::insert`
map_insert : Text → Value → List (Text × Value) → List (Text × Value)
map_insert k v [] = (k, v) ∷ []
map_insert k v ((j, w) ∷ rest) =
    if eq_text j k
    then (k, v) ∷ rest
    else if lt_text k j
    then (k, v) ∷ (j, w) ∷ rest
    else (j, w) ∷ map_insert k v rest

insert_some : Text → Option Value → List (Text × Value) → List (Text × Value)
insert_some k none obj = obj
insert_some k (some v) obj = map_insert k v obj

to_fields : List (Text × Value) → Fields
to_fields [] = end
to_fields ((k, v) ∷ rest) = field k v (to_fields rest)

role_name : Role → Text
role_name system = codes "system"
role_name user = codes "user"
role_name assistant = codes "assistant"

-- the `json!` object of one message, its keys in the order of a `serde_json::Map`
message_value : Message → Value
unfolding role_name
message_value m = object (
    field (codes "content") (string m.content)
      (field (codes "role") (string (role_name m.role)) end))

map_option : {A B : Type 0} → (A → B) → Option A → Option B
map_option f none = none
map_option f (some a) = some (f a)

text_or : Option Text → Text → Text
text_or none d = d
text_or (some s) d = s

module _ (codec : Codec) where
  open codec use {to_string, f32_value, digest, encode_entry, decode_entry}

  -- the sorted object behind `canonical_params`
  unfoldable pub params_value : SamplingParams → Value
  unfolding map_option insert_some map_insert lt_text to_fields
  params_value p =
      let stop = if is_empty p.stop then none else some (array (of_list (map string p.stop))) in
      object (
        to_fields (
          insert_some (codes "stop") stop (
            insert_some (codes "top_p") (map_option f32_value p.top_p) (
              insert_some (codes "temperature") (map_option f32_value p.temperature) (
                insert_some (codes "max_tokens") (map_option (λ n. number (pos_int n)) p.max_tokens)
                  [])))))

  unfoldable pub canonical_params : SamplingParams → Text
  unfolding text_or
  canonical_params p = text_or (to_string (params_value p)) (codes "{}")

  unfoldable pub messages_value : List Message → Value
  unfolding message_value
  messages_value ms = array (of_list (map message_value ms))

  unfoldable pub canonical_messages : List Message → Text
  unfolding text_or
  canonical_messages ms = text_or (to_string (messages_value ms)) (codes "[]")

  -- the bytes that `CacheKey::compute` hands to the hasher
  unfoldable pub key_bytes : Text → CompletionRequest → Text
  key_bytes provider_key req =
      codes "studio-router/v1"
      ++ (b'\n'
          ∷ (provider_key
              ++ (b'\n'
                  ∷ (req.model
                      ++ (b'\n'
                          ∷ (canonical_params req.params
                              ++ (b'\n' ∷ canonical_messages req.messages)))))))

  -- `CacheKey::compute`; `hex` is the key itself
  unfoldable pub compute : Text → CompletionRequest → Text
  compute provider_key req = digest (key_bytes provider_key req)

-- `CacheKey::wire`
unfoldable pub wire : Text → Text
wire key = codes "blake3:" ++ key

-- `Cache::path_for`
unfoldable pub path_for : FilePath → Text → FilePath
path_for root hex = root ++ (take 2 hex ∷ take 2 (drop 2 hex) ∷ (hex ++ codes ".json") ∷ [])

-- the text before the last dot, and the text after it
rsplit_dot : Text → Option (Text × Text)
rsplit_dot [] = none
rsplit_dot (c ∷ s) = elim (rsplit_dot s) [
  | some (before, after) ↦ some (c ∷ before, after)
  | none ↦ if c == b'.' then some ([], s) else none
]

stem_or : Text → Option (Text × Text) → Text
stem_or name none = name
stem_or name (some (before, after)) = if is_empty before then name else before

-- `Path::with_extension`, on the last component
with_extension : Text → FilePath → FilePath
with_extension ext [] = []
with_extension ext (name ∷ []) = (stem_or name (rsplit_dot name) ++ b'.' ∷ ext) ∷ []
with_extension ext (dir ∷ d ∷ rest) = dir ∷ with_extension ext (d ∷ rest)

-- the file that a put fills before it renames it
unfoldable pub tmp_path : FilePath → FilePath
unfolding with_extension rsplit_dot stem_or
tmp_path = with_extension (codes "tmp")

module _ (host : Host) (codec : Codec) where
  open codec use {encode_entry, decode_entry}

  abbrev Found : Type 0
  Found = Result IoError (Option CompletionResponse)

  decoded : Result Text CompletionResponse → Found
  decoded (ok resp) = ok (some resp)
  decoded (err e) = err (io_failed e)

  lookup_result : Result IoError Text → Found
  unfolding decoded
  lookup_result (ok bytes) = decoded (decode_entry bytes)
  lookup_result (err not_found) = ok none
  lookup_result (err (io_failed e)) = err (io_failed e)

  -- `Cache::get`
  unfoldable pub cache_get : FilePath → Text → Io host (Option CompletionResponse)
  unfolding lookup_result Files.read
  cache_get root key d =
      let (r, d') = Files.read host (path_for root key) d in (lookup_result r, d')

  -- the steps of `Cache::put` behind the encoding of the entry
  store_bytes : FilePath → FilePath → Text → Io host (Unit {0})
  store_bytes tmp path bytes = do
    Files.write host tmp bytes
    Files.set_permissions host tmp 0o600
    Files.rename host tmp path

  encoded : FilePath → FilePath → Result Text Text → Io host (Unit {0})
  encoded tmp path (ok bytes) = store_bytes tmp path bytes
  encoded tmp path (err e) = Files.fail (io_failed e)

  -- `Cache::put`; the first two steps are on the shard directory
  unfoldable pub cache_put :
      FilePath → Text → CompletionRequest → CompletionResponse → Io host (Unit {0})
  unfolding encoded store_bytes tmp_path
  cache_put root key req resp =
      let path = path_for root key in
      do
        Files.on_directory host
        Files.on_directory host
        encoded (tmp_path path) path (encode_entry req resp)
