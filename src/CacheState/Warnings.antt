-- ===== src/CacheState/Warnings.antt =====
-- `record_cache_write` and `check_for_silent_miss` of src/claudestruct/cache_state.py.
use claude_struct.Prelude.{
  ℕ, ◌+◌, ◌-◌, ◌≡◌, ◌≢◌, refl, ap, true, false, String, Option, none, some, [], ◌∷◌, ◌==◌, ◌&&◌,
  str_eq, eq_iff, eq_refl, leb, max, ◌/◌, if◌then◌else◌, arith,
}
use claude_struct.Json.{Json, str, obj, Fields, got, raised, lookup}
use claude_struct.CacheState.{
  CacheEntry, Entries, cache_ttl, StateFile, text, not_utf8, Services, read_entries, load_json,
  load, write_entries, save, key, find_entry, set_entry, Warning, miss_since, check_for_silent_miss,
  record_cache_write,
}

-- JSON that was written reads back, and so do a time and a text.
pub record IsFaithful (services : Services) : Type 0 where
  pub reads : (v : Json) → services.loads (services.dumps v) ≡ some v
  pub times : (n : ℕ) → services.float_of (services.number_of n) ≡ some n
  pub texts : (s : String) → services.str_of (str s) ≡ s

read-write_entries :
    (services : Services)
    → IsFaithful services
    → (es : Entries) → read_entries services (write_entries services es) ≡ es
unfolding read_entries write_entries lookup
read-write_entries services f [] = refl
read-write_entries services f ((k, e) ∷ es) =
    rw (f.times e.written_at, f.texts e.prompt_hash, read-write_entries services f es) refl

-- What was saved is loaded.
pub load-save :
    (services : Services)
    → IsFaithful services
    → (es : Entries) → load services (save services es) ≡ got es
unfolding load save lookup
load-save services f es = rw (f.reads _) (ap got (read-write_entries services f es))

find-set :
    (k j : String) (e : CacheEntry) (es : Entries)
    → find_entry j (set_entry k e es) ≡ (if str_eq k j then some e else find_entry j es)
unfolding find_entry set_entry
find-set k j e [] = refl
find-set k j e ((i, f) ∷ es) = ground (arith, eq_iff k j, eq_iff i k, eq_iff i j, find-set k j e es)

-- The warning due `later` for a prompt hash, after a call with a prompt hash at a moment.
abbrev pub since : String → ℕ → String → ℕ → Option Warning
since hash now hash' later =
    if str_eq hash hash' && (leb now later && leb later (now + cache_ttl))
    then some (max 1 ((later - now) / 60000000))
    else none

miss_since-since :
    (hash hash' : String) (now later : ℕ)
    → miss_since hash' later (some (record { written_at = now; prompt_hash = hash }))
      ≡ since hash now hash' later
miss_since-since hash hash' now later = ground arith

module _ (services : Services) (f : IsFaithful services) (file : StateFile)
    (entries : Entries) where
  -- Where the state file could be read and written, a call that wrote to the prompt cache or read
  -- from it is remembered: a later check with no cached tokens, of the same task and model, warns
  -- exactly if it has the same prompt hash and comes no earlier than that call and at most 50
  -- minutes after it, with the minutes gone by, at least 1; and a check of a task and model that are
  -- kept under another key, the two texts joined by "|", answers as it would have before.
  pub recorded_write_is_checked :
      (task model hash : String) (created read now : ℕ)
      → load services file ≡ got entries
      → services.writable ≡ true
      → ((created == 0) && (read == 0)) ≡ false
      → (file' : StateFile) × (record_cache_write services file task model hash created read now
          ≡ got file')
        × ((hash' : String) (later : ℕ)
            → check_for_silent_miss services file' task model hash' 0 later
              ≡ got (since hash now hash' later))
        × ((task' model' hash' : String) (later : ℕ)
            → key task' model' ≢ key task model
            → check_for_silent_miss services file' task' model' hash' 0 later
              ≡ check_for_silent_miss services file task' model' hash' 0 later)
  unfolding record_cache_write check_for_silent_miss
  recorded_write_is_checked task model hash created read now loaded can_write used =
      let e : CacheEntry = record { written_at = now; prompt_hash = hash } in
      let k = key task model in
      let file' = save services (set_entry k e entries) in
      let again = load-save services f (set_entry k e entries) in
      (
        file',
        rw (used, loaded, can_write) refl,
        λ hash' later.
            rw (again, find-set k k e entries, eq_refl k)
              (ap got (miss_since-since hash hash' now later)),
        λ task' model' hash' later other.
            let apart : str_eq k (key task' model') ≡ false =
              ground (arith, eq_iff k (key task' model')) in
            rw (again, loaded, find-set k (key task' model') e entries, apart) refl,
      )

no_get :
    (services : Services) (v : Json)
    → ((fs : Fields) → v ≢ obj fs)
    → load_json services (some v) ≡ raised
no_get services (obj fs) h = absurd (h fs refl)
no_get services Json.null h = refl
no_get services (Json.bool b) h = refl
no_get services (Json.int n) h = refl
no_get services (Json.number s) h = refl
no_get services (str s) h = refl
no_get services (Json.arr vs) h = refl

-- A state file whose text is JSON but no object, or whose bytes are no UTF-8, makes every check without cached tokens, and every
-- recording of a call that used the cache, raise an exception.
pub garbled_state_raises :
    (services : Services) (t task model hash : String) (v : Json) (created read now : ℕ)
    → services.loads t ≡ some v
    → ((fs : Fields) → v ≢ obj fs)
    → (check_for_silent_miss services (text t) task model hash 0 now ≡ raised)
      × (check_for_silent_miss services not_utf8 task model hash 0 now ≡ raised)
      × (((created == 0) && (read == 0)) ≡ false
          → (record_cache_write services (text t) task model hash created read now ≡ raised)
            × (record_cache_write services not_utf8 task model hash created read now ≡ raised))
unfolding check_for_silent_miss record_cache_write load
garbled_state_raises services t task model hash v created read now parsed other = (
  rw (parsed, no_get services v other) refl,
  refl,
  λ used. (rw (used, parsed, no_get services v other) refl, rw used refl),
)
