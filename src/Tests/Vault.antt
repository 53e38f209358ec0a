-- ===== src/Tests/Vault.antt =====
-- Secrets: a chain of the environment and Vault, where Vault's secret is rotated at moment 100.
use claude_struct.Prelude.{
  ℕ, ◌≡◌, refl, String, Option, some, none, List, [], ◌∷◌, All, ltb, str_eq, if◌then◌else◌, arith,
}
use claude_struct.Secrets.{Outside, field_value, Provider, env, vault, answer, failed, get}
use claude_struct.Secrets.Configured.{default_chain}
use claude_struct.Secrets.Freshness.{IsFresh}
use claude_struct.Secrets.Chain.{Served, get-Served}
use claude_struct.Submission.{strip}
use claude_struct.Auth.{drop_prefix}
use claude_struct.Json.{starts_with}

abbrev outside : ℕ → Outside
outside t = record {
  environ = λ name. if str_eq name "CLAUDESTRUCT_SECRETS_PROVIDER" then some "env, vault" else none;
  upper = λ s. s;
  keychain = λ key. none;
  pass_show = λ path. none;
  read_file = λ base name. none;
  aws_client = none;
  vault_client = some (λ url mount path. some (field_value (if ltb t 100 then "old" else "new")));
}

abbrev warm_vault : Provider
warm_vault = vault (record {
  url = "http://localhost:8200";
  mount = "secret";
  key_prefix = "";
  cache_ttl = 60;
  cache = ("api", "old", 150) ∷ [];
})

abbrev warm_chain : List Provider
warm_chain = env ∷ warm_vault ∷ []

warm-IsFresh : All (IsFresh outside 95) warm_chain
warm-IsFresh = (tt, (((90, omega arith, refl, refl), tt), tt))

get-Served_example :
    ((o : Option String)
      → get (outside 120) 120 warm_chain "api" ≡ answer o warm_chain
      → All (IsFresh outside 120) warm_chain × Served outside 120 "api" warm_chain o)
    × (get (outside 120) 120 warm_chain "api" ≡ failed warm_chain
        → All (IsFresh outside 120) warm_chain)
get-Served_example =
    get-Served outside 120 "api" 95 (omega arith) warm_chain warm_chain warm-IsFresh

-- The chain still answers the old secret at moment 120, twenty moments after the rotation.
answers_old : get (outside 120) 120 warm_chain "api" ≡ answer (some "old") warm_chain
unfolding get
answers_old = refl

abbrev filled_chain : List Provider
filled_chain =
    env
    ∷ vault (record {
      url = "http://localhost:8200";
      mount = "secret";
      key_prefix = "";
      cache_ttl = 60;
      cache = ("api", "new", 180) ∷ [];
    })
    ∷ []

answers_new :
    get (outside 120) 120 (default_chain (outside 120)) "api" ≡ answer (some "new") filled_chain
unfolding get default_chain strip drop_prefix starts_with
answers_new = refl

abbrev new_secret : Option String
new_secret = some "new"
