-- ===== src/Crypto/Boot.antt =====
-- The provider that a deployment boots with.
use claude_struct.Prelude.{
  ◌≡◌, ◌≢◌, refl, sym, ap, ◌∙◌, true, false, Bool-cases, inl, inr, String, Option, none, some,
  str_eq, eq_iff, arith,
}
use claude_struct.Submission.{strip}
use claude_struct.Crypto.{
  Bytes, ok, local, Env, or_text, is_set, new_local, new_aws, new_gcp, provider_called,
  default_provider,
}

set_text : (o : Option String) → is_set o ≡ true → (s : String) × (o ≡ some s) × (s ≢ "")
set_text none h = cc
set_text (some s) h = (s, refl, λ e. ground (arith, eq_iff s ""))

local_inj : (a b : Bytes) → ok (local a) ≡ ok (local b) → a ≡ b
local_inj a b h = cc

module _ (env : Env) (key : Bytes) where
  abbrev Derived : Type 0
  Derived =
      (phrase : String) × (env.get "CLAUDESTRUCT_KEK_PASSPHRASE" ≡ some phrase)
      × (phrase ≢ "")
      × (key ≡ env.pbkdf2 phrase)

  aws_is_no_local : (id : String) → new_aws env id ≢ ok (local key)
  aws_is_no_local id h = elim (Bool-cases (str_eq id "")) [
    | inl e ↦ cc (rw e at h)
    | inr e ↦ cc (rw e at h)
  ]

  gcp_is_no_local : (id : String) → new_gcp env id ≢ ok (local key)
  gcp_is_no_local id h = elim (Bool-cases (str_eq id "")) [
    | inl e ↦ cc (rw e at h)
    | inr e ↦ cc (rw e at h)
  ]

  local_derived :
      is_set (env.get "CLAUDESTRUCT_KEK_PASSPHRASE") ≡ true
      → ok (new_local env) ≡ ok (local key)
      → Derived
  unfolding new_local
  local_derived set h =
      let (phrase, is, some_text) = set_text (env.get "CLAUDESTRUCT_KEK_PASSPHRASE") set in
      let made : env.pbkdf2 (or_text "" (env.get "CLAUDESTRUCT_KEK_PASSPHRASE")) ≡ key =
        local_inj _ key (rw set at h) in
      (phrase, is, some_text, sym made ∙ ap (λ o. env.pbkdf2 (or_text "" o)) is)

  by_name : (name : String) → provider_called env false name ≡ ok (local key) → Derived
  by_name name k = elim (Bool-cases (str_eq name "local")) [
    | inl is ↦ elim (Bool-cases (is_set (env.get "CLAUDESTRUCT_KEK_PASSPHRASE"))) [
      | inl set ↦ local_derived set (rw (is, set) at k)
      | inr unset ↦ cc (rw (is, unset) at k)
    ]
    | inr a ↦ elim (Bool-cases (str_eq name "aws")) [
      | inl is ↦ absurd (aws_is_no_local _ (rw (a, is) at k))
      | inr b ↦ elim (Bool-cases (str_eq name "gcp")) [
        | inl is ↦ absurd (gcp_is_no_local _ (rw (a, b, is) at k))
        | inr g ↦ cc (rw (a, b, g) at k)
      ]
    ]
  ]

  -- Without the escape hatch for tests, the local provider that the environment selects has the key
  -- that is derived from a passphrase that is set and not empty, never a random one.
  pub default_provider-Derived :
      default_provider env false ≡ ok (local key)
      → (phrase : String) × (env.get "CLAUDESTRUCT_KEK_PASSPHRASE" ≡ some phrase)
        × (phrase ≢ "")
        × (key ≡ env.pbkdf2 phrase)
  unfolding default_provider
  default_provider-Derived h =
      by_name (env.lower (strip (or_text "local" (env.get "CLAUDESTRUCT_KMS_PROVIDER")))) h
