-- ===== src/Secrets.antt =====
-- src/claudestruct/secrets.py: the chain of secret stores. Times are natural numbers of one unit, in
-- which a lifetime of the caches is given.
pub mod Configured
pub mod Freshness
pub mod Chain
use Prim.Native.Char.{code}
use claude_struct.Prelude.{
  ℕ, ◌+◌, Bool, true, false, ◌&&◌, ◌||◌, not, String, text_append, Option, none, some, List, [],
  ◌∷◌, ◌++◌, ◌==◌, str_eq, ltb, if◌then◌else◌, map, keep,
}
use claude_struct.Submission.{strip}
use claude_struct.Json.{starts_with}
use claude_struct.Auth.{drop_prefix}

abbrev pub is_set : Option String → Bool
is_set none = false
is_set (some s) = not (str_eq s "")

-- `s or None` and `o or d`.
abbrev pub or_none : String → Option String
or_none s = if str_eq s "" then none else some s

abbrev pub or_text : String → Option String → String
or_text d none = d
or_text d (some s) = s

-- `s.replace(a, b)` of one character by another text.
unfoldable pub replace_char : ℕ → String → String → String
replace_char a b String.[] = ""
replace_char a b (String.◌∷◌ c s) =
    text_append (if code c == a then b else String.◌∷◌ c String.[]) (replace_char a b s)

-- `s.partition("\n")[0]`.
unfoldable pub first_line : String → String
first_line String.[] = ""
first_line (String.◌∷◌ c s) =
    let rest = first_line s in if code c == 10 then "" else String.◌∷◌ c rest

-- The response of Secrets Manager: its text, and its bytes as they decode, if they do.
pub record AwsSecret : Type 0 where
  pub secret_string : Option String
  pub secret_binary : Option (Option String)

-- What Vault answers: a response whose field is there, one whose field is falsy or missing, one
-- without `data` in `data` (a `KeyError` or a `TypeError`), or one where that has no `get`, as `null`
-- or a list (an `AttributeError`). A value that is no text is taken as `str` of it, which is not
-- empty.
pub data VaultSecret : Type 0 where
  field_value : String → VaultSecret
  no_value bad_shape no_mapping : VaultSecret

-- The outside, as it is at a moment: the environment, `str.upper`, the keychain, the output of the
-- `pass` program for a path and the files under a directory (`some none` for what is no UTF-8), and
-- what the clients of AWS (by region and name) and Vault (by address, mount and path) answer. `none`
-- is no library for the two clients, and an exception within; elsewhere it is a miss, for whatever
-- reason.
pub record Outside : Type 0 where
  pub environ : String → Option String
  pub upper : String → String
  pub keychain : String → Option String
  pub pass_show : String → Option (Option String)
  pub read_file : String → String → Option (Option String)
  pub aws_client : Option (String → String → Option AwsSecret)
  pub vault_client : Option (String → String → String → Option VaultSecret)

-- `_cache`: values and when they expire.
abbrev pub Cache : Type 0
Cache = List (String × String × ℕ)

pub record AwsStore : Type 0 where
  pub region_name : String
  pub key_prefix : String
  pub cache_ttl : ℕ
  pub cache : Cache

pub record VaultStore : Type 0 where
  pub url : String
  pub mount : String
  pub key_prefix : String
  pub cache_ttl : ℕ
  pub cache : Cache

-- The providers.
pub data Provider : Type 0 where
  env keyring : Provider
  pass : String → Provider
  file : String → Provider
  aws_secrets : AwsStore → Provider
  vault : VaultStore → Provider

-- What a provider answers, with its cache as it then is; or an exception: a library that is missing,
-- a file or an output of `pass` that is no text, or an answer of Vault where `get` is missing.
pub data Fetched : Type 0 where
  fetched : Option String → Provider → Fetched
  raised : Fetched

-- `_LEGACY_ENV_MAP`.
unfoldable pub legacy_env : String → Option String
legacy_env key =
    if str_eq key "anthropic.api_key"
    then some "ANTHROPIC_API_KEY"
    else if str_eq key "github.token"
    then some "GITHUB_TOKEN"
    else if str_eq key "slack.bot_token"
    then some "SLACK_BOT_TOKEN"
    else if str_eq key "slack.app_token"
    then some "SLACK_APP_TOKEN"
    else none

-- `_canonical_to_env`.
unfoldable pub canonical_to_env : Outside → String → String
unfolding replace_char
canonical_to_env out key =
    text_append "CLAUDESTRUCT_SECRET_" (replace_char b'.' "_" (out.upper key))

abbrev pub legacy_value : Outside → Option String → Option String
legacy_value out none = none
legacy_value out (some name) = if is_set (out.environ name) then out.environ name else none

-- `EnvProvider.get`.
unfoldable pub env_get : Outside → String → Option String
unfolding canonical_to_env legacy_env
env_get out key =
    if is_set (out.environ (canonical_to_env out key))
    then out.environ (canonical_to_env out key)
    else legacy_value out (legacy_env key)

-- Output that is no UTF-8 raises an exception that is neither an `OSError` nor a `SubprocessError`.
abbrev pub first_stripped : String → Option (Option String) → Fetched
first_stripped prefix none = fetched none (pass prefix)
first_stripped prefix (some none) = raised
first_stripped prefix (some (some shown)) =
    fetched (or_none (strip (first_line shown))) (pass prefix)

-- `PassProvider.get`.
unfoldable pub pass_get : Outside → String → String → Fetched
unfolding first_line strip
pass_get out prefix key =
    first_stripped prefix
      (out.pass_show (if str_eq prefix "" then key else text_append prefix (text_append "/" key)))

-- Bytes that are no UTF-8 raise an exception that is no `OSError`.
abbrev pub read_text : String → Option (Option String) → Fetched
read_text base none = fetched none (file base)
read_text base (some none) = raised
read_text base (some (some t)) = fetched (or_none (strip t)) (file base)

-- `FileProvider.get`.
unfoldable pub file_get : Outside → String → String → Fetched
unfolding strip replace_char
file_get out base key = read_text base (out.read_file base (replace_char b'.' "_" key))

-- `_cache.get(key)`, where it has not expired.
unfoldable pub cached : String → ℕ → Cache → Option String
cached key now [] = none
cached key now ((k, v, expires) ∷ c) =
    if str_eq k key then (if ltb now expires then some v else none) else cached key now c

unfoldable pub remember : String → String → ℕ → Cache → Cache
remember key v expires [] = (key, v, expires) ∷ []
remember key v expires ((k, w, e) ∷ c) =
    if str_eq k key then (key, v, expires) ∷ c else (k, w, e) ∷ remember key v expires c

-- The value that a response of Secrets Manager holds.
abbrev pub binary_value : Option (Option String) → Option String
binary_value none = none
binary_value (some none) = none
binary_value (some (some s)) = or_none s

abbrev pub aws_value : Option AwsSecret → Option String
aws_value none = none
aws_value (some r) =
    if is_set r.secret_string then r.secret_string else binary_value r.secret_binary

abbrev pub vault_value : Option VaultSecret → Option String
vault_value (some (field_value s)) = or_none s
vault_value _ = none

-- The attempt that only a `KeyError` and a `TypeError` end as a miss.
abbrev pub vault_raises : Option VaultSecret → Bool
vault_raises (some no_mapping) = true
vault_raises _ = false

-- A value that was fetched is remembered if the lifetime is not zero.
abbrev pub remembered : String → Option String → ℕ → ℕ → Cache → Cache
remembered key none now ttl c = c
remembered key (some v) now ttl c = if ltb 0 ttl then remember key v (now + ttl) c else c

-- `_aws_name` and `_vault_path`.
abbrev pub store_path : String → String → String
store_path prefix key = text_append prefix (replace_char b'.' "/" key)

-- The second half of the two caching `get`s: what the client answers.
abbrev pub aws_fetch : AwsStore → String → ℕ → Option (String → String → Option AwsSecret) → Fetched
aws_fetch s key now none = raised
aws_fetch s key now (some client) =
    let v = aws_value (client s.region_name (store_path s.key_prefix key)) in
    fetched v (aws_secrets (record s { cache = remembered key v now s.cache_ttl s.cache }))

abbrev pub vault_fetch :
    VaultStore → String → ℕ → Option (String → String → String → Option VaultSecret) → Fetched
vault_fetch s key now none = raised
vault_fetch s key now (some client) =
    let r = client s.url s.mount (store_path s.key_prefix key) in
    let v = vault_value r in
    if vault_raises r
    then raised
    else fetched v (vault (record s { cache = remembered key v now s.cache_ttl s.cache }))

abbrev pub hit_or : Provider → Option String → Fetched → Fetched
hit_or p none rest = rest
hit_or p (some v) rest = fetched (some v) p

-- `get` of each provider.
unfoldable pub provider_get : Outside → ℕ → Provider → String → Fetched
unfolding cached remember env_get pass_get file_get
provider_get out now env key = fetched (env_get out key) env
provider_get out now keyring key = fetched (out.keychain key) keyring
provider_get out now (pass prefix) key = pass_get out prefix key
provider_get out now (file base) key = file_get out base key
provider_get out now (aws_secrets s) key =
    hit_or (aws_secrets s) (cached key now s.cache) (aws_fetch s key now out.aws_client)
provider_get out now (vault s) key =
    hit_or (vault s) (cached key now s.cache) (vault_fetch s key now out.vault_client)

-- What the chain answers, or an exception, and the chain with its caches.
pub data Answer : Type 0 where
  answer : Option String → List Provider → Answer
  failed : List Provider → Answer

abbrev pub before : Provider → Answer → Answer
before p (failed ps) = failed (p ∷ ps)
before p (answer v ps) = answer v (p ∷ ps)

abbrev pub or_next : Provider → List Provider → Fetched → Answer → Answer
or_next p ps raised rest = failed (p ∷ ps)
or_next p ps (fetched v p') rest = if is_set v then answer v (p' ∷ ps) else before p' rest

-- `get` over a chain: the first value that is set.
unfoldable pub get : Outside → ℕ → List Provider → String → Answer
unfolding provider_get
get out now [] key = answer none []
get out now (p ∷ ps) key = or_next p ps (provider_get out now p key) (get out now ps key)

-- `require`: the value, the `KeyError` with the names of the providers asked, or an exception of one.
pub data Required : Type 0 where
  value : String → List Provider → Required
  not_found : List String → List Provider → Required
  broken : List Provider → Required

unfoldable pub name : Provider → String
name env = "env"
name keyring = "keyring"
name (pass _) = "pass"
name (file _) = "file"
name (aws_secrets _) = "aws-secrets"
name (vault _) = "vault"

abbrev pub required : List Provider → Answer → Required
required asked (failed ps) = broken ps
required asked (answer none ps) = not_found (map name asked) ps
required asked (answer (some v) ps) = value v ps

unfoldable pub require : Outside → ℕ → List Provider → String → Required
unfolding get name
require out now ps key = required ps (get out now ps key)
