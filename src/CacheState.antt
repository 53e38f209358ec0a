-- ===== src/CacheState.antt =====
-- src/claudestruct/cache_state.py: the file that remembers prompt-cache writes from one run to the
-- next. Times are counted in microseconds, and none is negative.
pub mod Warnings
use claude_struct.Prelude.{
  ℕ, ◌+◌, ◌-◌, ◌*◌, ◌/◌, Bool, true, false, not, ◌&&◌, ◌||◌, String, text_append, Option, none,
  some, List, [], ◌∷◌, ◌==◌, str_eq, ltb, if◌then◌else◌, max,
}
use claude_struct.Json.{
  Json, null, int, str, obj, Fields, end, field, Got, got, raised, ◌>>=◌, get, get_default, lookup,
}

-- `CACHE_TTL_SECONDS`, and `_STATE_VERSION`.
abbrev pub cache_ttl : ℕ
cache_ttl = 50 * 60 * 1000000

abbrev pub state_version : ℕ
state_version = 1

-- `CacheEntry`.
pub record CacheEntry : Type 0 where
  pub written_at : ℕ
  pub prompt_hash : String

-- The entries, by task and model.
abbrev pub Entries : Type 0
Entries = List (String × CacheEntry)

-- The file: absent, one for which reading raises an `OSError`, bytes that are no UTF-8, or a text.
pub data StateFile : Type 0 where
  absent unreadable not_utf8 : StateFile
  text : String → StateFile

-- Python's library: JSON (`none` is a decode error), `float` and `str` of a JSON value (`none` is a
-- `TypeError` or a `ValueError`), a time as a JSON number, and whether the file can be written.
pub record Services : Type 0 where
  pub loads : String → Option Json
  pub dumps : Json → String
  pub float_of : Json → Option ℕ
  pub str_of : Json → String
  pub number_of : ℕ → Json
  pub writable : Bool

-- `val["..."]`; `none` is a `KeyError` or a `TypeError`.
abbrev pub item : String → Json → Option Json
item k (obj fs) = lookup k fs
item k _ = none

abbrev pub entry_with : Services → Option ℕ → Option Json → Option CacheEntry
entry_with services (some at) (some hash) =
    some (record { written_at = at; prompt_hash = services.str_of hash })
entry_with services _ _ = none

abbrev pub float_item : Services → Option Json → Option ℕ
float_item services none = none
float_item services (some v) = services.float_of v

abbrev pub put_entry : String → Option CacheEntry → Entries → Entries
put_entry k none rest = rest
put_entry k (some e) rest = (k, e) ∷ rest

-- The loop over `raw.get("entries", {}).items()`: what cannot be read is passed over.
unfoldable pub read_entries : Services → Fields → Entries
read_entries services end = []
read_entries services (field k v fs) =
    put_entry k
      (entry_with services (float_item services (item "written_at" v)) (item "prompt_hash" v))
      (read_entries services fs)

abbrev pub entries_of : Services → Json → Got Entries
entries_of services (obj fs) = got (read_entries services fs)
entries_of services _ = raised

abbrev pub is_version : Json → Bool
is_version (int n) = n == state_version
is_version (Json.bool b) = b
is_version _ = false

abbrev pub load_json : Services → Option Json → Got Entries
load_json services none = got []
load_json services (some raw) = do
  version ← get "version" raw
  entries ← get_default (obj end) "entries" raw
  if is_version version then entries_of services entries else got []

-- `_load`. A text that is JSON but no object has no `get`, and a `UnicodeDecodeError` is neither an
-- `OSError` nor a `JSONDecodeError`.
unfoldable pub load : Services → StateFile → Got Entries
load services absent = got []
load services unreadable = got []
load services not_utf8 = raised
load services (text t) = load_json services (services.loads t)

unfoldable pub write_entries : Services → Entries → Fields
write_entries services [] = end
write_entries services ((k, e) ∷ es) =
    field k
      (obj (
        field "written_at" (services.number_of e.written_at)
          (field "prompt_hash" (str e.prompt_hash) end)))
      (write_entries services es)

-- `_save`: the rename puts the whole new text in place.
unfoldable pub save : Services → Entries → StateFile
unfolding write_entries
save services entries = text (
    services.dumps (
      obj (
        field "version" (int state_version)
          (field "entries" (obj (write_entries services entries)) end))))

-- `_key`.
abbrev pub key : String → String → String
key task model = text_append task (text_append "|" model)

-- `entries.get(key)`.
unfoldable pub find_entry : String → Entries → Option CacheEntry
find_entry k [] = none
find_entry k ((j, e) ∷ es) = if str_eq j k then some e else find_entry k es

-- `entries[key] = entry`.
unfoldable pub set_entry : String → CacheEntry → Entries → Entries
set_entry k e [] = (k, e) ∷ []
set_entry k e ((j, f) ∷ es) = if str_eq j k then (k, e) ∷ es else (j, f) ∷ set_entry k e es

-- A warning, by the minutes in its text.
abbrev pub Warning : Type 0
Warning = ℕ

abbrev pub miss_since : String → ℕ → Option CacheEntry → Option Warning
miss_since hash now none = none
miss_since hash now (some prev) =
    if not (str_eq prev.prompt_hash hash)
    then none
    else if ltb now prev.written_at || ltb cache_ttl (now - prev.written_at)
    then none
    else some (max 1 ((now - prev.written_at) / 60000000))

-- `check_for_silent_miss`.
unfoldable pub check_for_silent_miss :
    Services → StateFile → String → String → String → ℕ → ℕ → Got (Option Warning)
check_for_silent_miss services file task model hash cache_read_tokens now =
    if ltb 0 cache_read_tokens then got none else (do
      entries ← load services file
      got (miss_since hash now (find_entry (key task model) entries)))

-- `record_cache_write`: the file afterwards. A failed write is passed over.
unfoldable pub record_cache_write :
    Services → StateFile → String → String → String → ℕ → ℕ → ℕ → Got StateFile
record_cache_write services file task model hash cache_creation_tokens cache_read_tokens now =
    if (cache_creation_tokens == 0) && (cache_read_tokens == 0) then got file else (do
      entries ← load services file
      got (
          if services.writable
          then save services
              (set_entry (key task model) (record { written_at = now; prompt_hash = hash }) entries)
          else file))
