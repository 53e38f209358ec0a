-- ===== src/Tests/Caches.antt =====
-- The state of the prompt cache, and the cache of responses, over the toy notation for JSON.
use claude_struct.Prelude.{ℕ, ◌≡◌, ◌≢◌, refl, true, String, Option, some, none, [], ◌∷◌}
use claude_struct.Json.{Json, int, str, obj, arr, nil, Fields, got}
use claude_struct.CacheState.{
  CacheEntry, Entries, StateFile, text, absent, not_utf8, load, record_cache_write,
  check_for_silent_miss, key,
}
use claude_struct.CacheState.Warnings.{since, recorded_write_is_checked, garbled_state_raises}
use claude_struct.LocalCache.{
  CachedResponse, FileName, entry, temporary, other, Contents, content, unreadable, CacheFile,
  Directory, get, put, write_temporary, stats, clear,
}
use claude_struct.LocalCache.Files.{get-put, clear_empties}
use claude_struct.Tests.Toy.{toy_dumps, toy_loads, toy_loads-toy_dumps}

abbrev toy_int : Json → Option ℕ
toy_int (int n) = some n
toy_int _ = none

abbrev toy_text : Json → String
toy_text (str s) = s
toy_text _ = "?"

abbrev state_services : claude_struct.CacheState.Services
state_services = record {
  loads = toy_loads;
  dumps = toy_dumps;
  float_of = toy_int;
  str_of = toy_text;
  number_of = int;
  writable = true;
}

state_services-IsFaithful : claude_struct.CacheState.Warnings.IsFaithful state_services
state_services-IsFaithful = record {
  reads = toy_loads-toy_dumps;
  times = λ n. refl;
  texts = λ s. refl;
}

loads_absent : load state_services absent ≡ got []
unfolding load
loads_absent = refl

recorded_write_is_checked_example :
    (file' : StateFile) × (record_cache_write state_services absent "review" "opus" "h1" 900 0 5000
      ≡ got file')
    × ((hash' : String) (later : ℕ)
        → check_for_silent_miss state_services file' "review" "opus" hash' 0 later
          ≡ got (since "h1" 5000 hash' later))
    × ((task' model' hash' : String) (later : ℕ)
        → key task' model' ≢ key "review" "opus"
        → check_for_silent_miss state_services file' task' model' hash' 0 later
          ≡ check_for_silent_miss state_services absent task' model' hash' 0 later)
recorded_write_is_checked_example =
    recorded_write_is_checked state_services state_services-IsFaithful absent [] "review" "opus"
      "h1" 900 0 5000 loads_absent refl refl

-- Two minutes later the prompt is still expected in the cache, an hour later no more.
warns_in_time : since "h1" 5000 "h1" 120005000 ≡ some 2
warns_in_time = refl

silent_when_late : since "h1" 5000 "h1" 3600005000 ≡ none
silent_when_late = refl

a_list : (fs : Fields) → arr nil ≢ obj fs
a_list fs h = cc

abbrev cache_services : claude_struct.LocalCache.Services
cache_services = record {
  loads = toy_loads;
  dumps = toy_dumps;
  str_of = toy_text;
  int_of = toy_int;
  float_of = toy_int;
  number_of = int;
}

cache_services-IsFaithful : claude_struct.LocalCache.Files.IsFaithful cache_services
cache_services-IsFaithful = record {
  reads = toy_loads-toy_dumps;
  texts = λ s. refl;
  counts = λ n. refl;
  times = λ n. refl;
}

abbrev an_answer : CachedResponse
an_answer = record {
  text = "ok";
  input_tokens = 12;
  output_tokens = 3;
  cache_read_tokens = 0;
  cache_creation_tokens = 0;
  created_at = 77;
}

abbrev a_directory : Directory
a_directory =
    record { shard = "ab"; name = entry "abcd"; contents = content "?" }
    ∷ record { shard = "ab"; name = temporary "abxy"; contents = unreadable }
    ∷ []

get-put_example :
    ((t : Contents) (j : String)
      → get cache_services j (write_temporary cache_services "abcd" t a_directory)
        ≡ get cache_services j a_directory)
    × (get cache_services "abcd" (put cache_services "abcd" an_answer a_directory)
        ≡ got (some an_answer))
    × ((j : String)
        → j ≢ "abcd"
        → get cache_services j (put cache_services "abcd" an_answer a_directory)
          ≡ get cache_services j a_directory)
get-put_example = get-put cache_services cache_services-IsFaithful "abcd" an_answer a_directory
