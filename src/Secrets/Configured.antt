-- ===== src/Secrets/Configured.antt =====
-- `default_chain` of src/claudestruct/secrets.py: the providers that the environment selects.
use Prim.Native.Char.{code}
use claude_struct.Prelude.{
  ℕ, ◌||◌, String, Option, none, some, List, [], ◌∷◌, ◌==◌, str_eq, if◌then◌else◌,
}
use claude_struct.Auth.{drop_prefix}
use claude_struct.Json.{starts_with}
use claude_struct.Submission.{strip}
use claude_struct.Secrets.{or_text, Outside, Provider, env, keyring, pass, file, aws_secrets, vault}

-- `s.split(",")`: the parts, the first one apart.
unfoldable pub split_commas : String → String × List String
split_commas String.[] = ("", [])
split_commas (String.◌∷◌ c s) =
    let (part, parts) = split_commas s in
    if code c == b',' then ("", part ∷ parts) else (String.◌∷◌ c part, parts)

-- What stands behind a prefix, or a default where nothing does.
abbrev pub behind : String → String → String → String
behind prefix default part = elim (drop_prefix prefix part) [
  | none ↦ default
  | some r ↦ if str_eq r "" then default else r
]

abbrev pub cache_ttl_seconds : ℕ
cache_ttl_seconds = 60

-- One part of the list of providers; an unknown one is skipped.
unfoldable pub provider_of : Outside → String → Option Provider
unfolding drop_prefix
provider_of out part =
    if str_eq part "env"
    then some env
    else if str_eq part "keyring"
    then some keyring
    else if str_eq part "pass"
    then some (pass "claudestruct")
    else if starts_with "file:" part
    then some (file (or_text "" (drop_prefix "file:" part)))
    else if str_eq part "aws-secrets" || starts_with "aws-secrets:" part
    then some (
        aws_secrets (record {
          region_name = behind "aws-secrets:" (or_text "us-east-1" (out.environ "AWS_REGION")) part;
          key_prefix = or_text "" (out.environ "CLAUDESTRUCT_AWS_SECRETS_PREFIX");
          cache_ttl = cache_ttl_seconds;
          cache = [];
        }))
    else if str_eq part "vault" || starts_with "vault:" part
    then some (
        vault (record {
          url = behind "vault:" (or_text "http://localhost:8200" (out.environ "VAULT_ADDR")) part;
          mount = or_text "secret" (out.environ "CLAUDESTRUCT_VAULT_MOUNT");
          key_prefix = or_text "" (out.environ "CLAUDESTRUCT_VAULT_PREFIX");
          cache_ttl = cache_ttl_seconds;
          cache = [];
        }))
    else none

abbrev pub or_skipped : Option Provider → List Provider → List Provider
or_skipped none ps = ps
or_skipped (some p) ps = p ∷ ps

-- The loop over the parts, without those that are blank.
unfoldable pub providers_of : Outside → List String → List Provider
unfolding strip provider_of
providers_of out [] = []
providers_of out (part ∷ parts) =
    let rest = providers_of out parts in
    if str_eq (strip part) "" then rest else or_skipped (provider_of out (strip part)) rest

abbrev pub or_env : List Provider → List Provider
or_env [] = env ∷ []
or_env (p ∷ ps) = p ∷ ps

-- `raw.split(",")`.
unfoldable pub parts : Outside → List String
unfolding split_commas
parts out =
    let (part, rest) = split_commas (or_text "env" (out.environ "CLAUDESTRUCT_SECRETS_PROVIDER")) in
    part ∷ rest

-- `default_chain`.
unfoldable pub default_chain : Outside → List Provider
unfolding providers_of parts
default_chain out = or_env (providers_of out (parts out))
