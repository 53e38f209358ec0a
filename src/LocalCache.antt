-- ===== src/LocalCache.antt =====
-- src/claudestruct/local_cache.py: the cache of responses on disk. A key names the file
-- "<key>.json" of its shard, and "<key>.json.tmp" while it is written; a directory is a list of
-- files. Times are counted by their JSON numbers.
pub mod Files
use claude_struct.Prelude.{
  ℕ, ◌+◌, Bool, true, false, ◌&&◌, ◌||◌, not, String, Option, none, some, List, [], ◌∷◌, str_eq,
  if◌then◌else◌, keep, sum_of, length,
}
use claude_struct.Json.{Json, null, int, str, obj, Fields, end, field, Got, got, raised, lookup}
use claude_struct.Submission.{strip}

-- `CachedResponse`.
pub record CachedResponse : Type 0 where
  pub text : String
  pub input_tokens : ℕ
  pub output_tokens : ℕ
  pub cache_read_tokens : ℕ
  pub cache_creation_tokens : ℕ
  pub created_at : ℕ

-- The name of a file: an entry, an entry that is being written, or any other.
pub data FileName : Type 0 where
  entry temporary other : String → FileName

-- What a file holds: a text, bytes that are no UTF-8, or what reading fails for with an `OSError`.
pub data Contents : Type 0 where
  content : String → Contents
  not_utf8 unreadable : Contents

-- A file of the cache's directory.
pub record CacheFile : Type 0 where
  pub shard : String
  pub name : FileName
  pub contents : Contents

abbrev pub Directory : Type 0
Directory = List CacheFile

-- Python's library: JSON (`none` is a decode error), `str`, `int` and `float` of a JSON value (`none`
-- is a `TypeError` or a `ValueError`), and a time as a JSON number.
pub record Services : Type 0 where
  pub loads : String → Option Json
  pub dumps : Json → String
  pub str_of : Json → String
  pub int_of : Json → Option ℕ
  pub float_of : Json → Option ℕ
  pub number_of : ℕ → Json

-- `key[:2]`, or "_" for a key that is shorter.
unfoldable pub shard_of : String → String
shard_of (String.◌∷◌ a (String.◌∷◌ b s)) = String.◌∷◌ a (String.◌∷◌ b String.[])
shard_of _ = "_"

abbrev pub same_name : FileName → FileName → Bool
same_name (entry a) (entry b) = str_eq a b
same_name (temporary a) (temporary b) = str_eq a b
same_name (other a) (other b) = str_eq a b
same_name _ _ = false

-- The file at a path.
unfoldable pub read_file : String → FileName → Directory → Option CacheFile
read_file shard name [] = none
read_file shard name (f ∷ fs) =
    if str_eq f.shard shard && same_name f.name name then some f else read_file shard name fs

-- `write_text`: the file at the path is made anew.
unfoldable pub write_file : CacheFile → Directory → Directory
write_file g [] = g ∷ []
write_file g (f ∷ fs) =
    if str_eq f.shard g.shard && same_name f.name g.name then g ∷ fs else f ∷ write_file g fs

unfoldable pub remove_file : String → FileName → Directory → Directory
remove_file shard name fs = keep (λ f. not (str_eq f.shard shard && same_name f.name name)) fs

module _ (services : Services) where
  abbrev pub or_zero : (Json → Option ℕ) → Option Json → Option ℕ
  or_zero of none = some 0
  or_zero of (some v) = of v

  abbrev pub response :
      Json → Option ℕ → Option ℕ → Option ℕ → Option ℕ → Option ℕ → Option CachedResponse
  response t (some i) (some o) (some r) (some c) (some at) = some (record {
    text = services.str_of t;
    input_tokens = i;
    output_tokens = o;
    cache_read_tokens = r;
    cache_creation_tokens = c;
    created_at = at;
  })
  response t _ _ _ _ _ = none

  abbrev pub with_text : Fields → Option Json → Option CachedResponse
  with_text fs none = none
  with_text fs (some t) =
      response t (or_zero services.int_of (lookup "input_tokens" fs))
        (or_zero services.int_of (lookup "output_tokens" fs))
        (or_zero services.int_of (lookup "cache_read_tokens" fs))
        (or_zero services.int_of (lookup "cache_creation_tokens" fs))
        (or_zero services.float_of (lookup "created_at" fs))

  -- The response in what was read: a value that is no object has no `raw["text"]`.
  abbrev pub response_in : Option Json → Option CachedResponse
  response_in (some (obj fs)) = with_text fs (lookup "text" fs)
  response_in _ = none

  -- A `UnicodeDecodeError` is neither an `OSError` nor a `JSONDecodeError`.
  abbrev pub parsed : Contents → Got (Option CachedResponse)
  parsed unreadable = got none
  parsed not_utf8 = raised
  parsed (content t) = got (response_in (services.loads t))

  abbrev pub response_of : Option CacheFile → Got (Option CachedResponse)
  response_of none = got none
  response_of (some f) = parsed f.contents

  -- `get`.
  unfoldable pub get : String → Directory → Got (Option CachedResponse)
  unfolding lookup
  get key d = response_of (read_file (shard_of key) (entry key) d)

  -- `asdict(value)`.
  abbrev pub written : CachedResponse → Json
  written v = obj (
      field "text" (str v.text) (
        field "input_tokens" (int v.input_tokens) (
          field "output_tokens" (int v.output_tokens) (
            field "cache_read_tokens" (int v.cache_read_tokens) (
              field "cache_creation_tokens" (int v.cache_creation_tokens)
                (field "created_at" (services.number_of v.created_at) end))))))

  unfoldable pub response_text : CachedResponse → String
  response_text v = services.dumps (written v)

  -- The temporary file with some contents, as a write that is under way or was cut off leaves it.
  unfoldable pub write_temporary : String → Contents → Directory → Directory
  write_temporary key t d =
      write_file (record { shard = shard_of key; name = temporary key; contents = t }) d

  -- `tmp.replace(p)`.
  unfoldable pub replace_entry : String → CachedResponse → Directory → Directory
  replace_entry key v d =
      write_file
        (record { shard = shard_of key; name = entry key; contents = content (response_text v) })
        (remove_file (shard_of key) (temporary key) d)

  -- `put`.
  unfoldable pub put : String → CachedResponse → Directory → Directory
  put key v d = replace_entry key v (write_temporary key (content (response_text v)) d)

-- `f.name.endswith(".json")`.
abbrev pub is_entry : FileName → Bool
is_entry (entry _) = true
is_entry _ = false

-- `CacheStats`.
pub record CacheStats : Type 0 where
  pub entries : ℕ
  pub bytes : ℕ

-- An entry for which a system call does not fail.
abbrev pub is_sound_entry : (CacheFile → Bool) → CacheFile → Bool
is_sound_entry fails f = is_entry f.name && not (fails f)

-- `stats`; `fails` says for which files `stat` raises an `OSError`, and `size` is what it returns.
unfoldable pub stats : (CacheFile → Bool) → (CacheFile → ℕ) → Directory → CacheStats
stats fails size d = record {
  entries = length (keep (is_sound_entry fails) d);
  bytes = sum_of size (keep (is_sound_entry fails) d);
}

-- `clear`: the number deleted, and what stays; `fails` says for which files `unlink` raises one.
unfoldable pub clear : (CacheFile → Bool) → Directory → ℕ × Directory
clear fails d = (length (keep (is_sound_entry fails) d), keep (λ f. not (is_sound_entry fails f)) d)

-- `override or os.environ.get("CLAUDESTRUCT_LLM_CACHE", "auto")`.
abbrev pub or_auto : Option String → String
or_auto none = "auto"
or_auto (some e) = e

abbrev pub or_environment : Option String → Option String → String
or_environment none env = or_auto env
or_environment (some o) env = if str_eq o "" then or_auto env else o

-- `is_enabled_for`, after the lower case of a text and the environment variable.
unfoldable pub is_enabled_for : (String → String) → Option String → String → Option String → Bool
unfolding strip
is_enabled_for lower env provider override =
    let raw = lower (strip (or_environment override env)) in
    if str_eq raw "off" || (str_eq raw "0" || (str_eq raw "false" || str_eq raw "no"))
    then false
    else if str_eq raw "on" || (str_eq raw "1" || (str_eq raw "true" || str_eq raw "yes"))
    then true
    else str_eq provider "openai"
