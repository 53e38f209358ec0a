-- ===== src/Github/Refusals.antt =====
-- `receive_webhook` of src/claudestruct/server/routers/github.py towards a caller without the secret.
use claude_struct.Prelude.{
  ℕ, ◌≡◌, ◌≢◌, refl, true, false, inl, inr, Bool-cases, String, Option, some, List, In,
  if◌then◌else◌,
}
use claude_struct.Auth.{Lookup, missing, one, several, drop_prefix}
use claude_struct.Json.{Json, got, raised, as_int}
use claude_struct.Github.{GithubInstallation, is_active, Services}
use claude_struct.Github.Receive.{
  GithubServer, Delivery, unauthorized, server_error, is_ascii, verify_signature, installation,
  with_installation, install_id_of, is_object, receive_webhook,
}
use claude_struct.Github.Gate.{installation_found}

-- The body is an object that names an installation's id.
pub record Names (services : Services) (raw : List ℕ) (n : ℕ) : Type 0 where
  pub payload : Json
  pub id : Json
  pub read : services.loads raw ≡ some payload
  pub object : is_object payload ≡ true
  pub found : install_id_of payload ≡ got id
  pub is : as_int id ≡ some n

module _ (services : Services) (d : Delivery) (event : Option String) (raw : List ℕ) (n : ℕ)
    (names : Names services raw n) where
  routed_to :
      (signature : Option String) (s : GithubServer)
      → receive_webhook services d event signature raw s
        ≡ with_installation services d n event signature raw
            (names.payload)
            s
            (installation n s.installations)
  unfolding receive_webhook
  routed_to signature s = rw (names.read, names.object, names.found, names.is) refl

  refused_or_unknown :
      (signature : Option String) (s : GithubServer) (l : Lookup GithubInstallation)
      → installation n s.installations ≡ l
      → l ≢ several
      → ((i : GithubInstallation)
          → In i s.installations
          → i.installation_id ≡ n
          → is_active i ≡ true
          → verify_signature services i.webhook_secret raw signature ≡ got false)
      → with_installation services d n event signature raw (names.payload) s l ≡ (unauthorized, s)
  refused_or_unknown signature s missing at single wrong = refl
  refused_or_unknown signature s several at single wrong = absurd (single refl)
  refused_or_unknown signature s (one i) at single wrong = elim (Bool-cases (is_active i)) [
    | inl active ↦
        (let (known, id) = installation_found n s.installations i at in
          rw (active, wrong i known id active) refl)
    | inr revoked ↦ rw revoked refl
  ]

  -- A body that names an installation's id is answered with the same 401, and changes nothing,
  -- whether no installation has the id, the one that has it is revoked, or the test of the signature
  -- with its secret answers no and raises no exception; given that no two installations have the id.
  pub refusals_alike :
      (signature : Option String) (s : GithubServer)
      → installation n s.installations ≢ several
      → ((i : GithubInstallation)
          → In i s.installations
          → i.installation_id ≡ n
          → is_active i ≡ true
          → verify_signature services i.webhook_secret raw signature ≡ got false)
      → receive_webhook services d event signature raw s ≡ (unauthorized, s)
  refusals_alike signature s single wrong =
      rw (routed_to signature s)
        (refused_or_unknown signature s (installation n s.installations) refl single wrong)

  raises :
      (secret header hex : String)
      → drop_prefix "sha256=" header ≡ some hex
      → is_ascii hex ≡ false
      → verify_signature services secret raw (some header) ≡ raised
  unfolding verify_signature
  raises secret header hex prefix foreign = rw (prefix, foreign) refl

  -- A signature that is not ASCII tells whether an installation is there: for an active one the
  -- answer is a 500, and for an unknown one or a revoked one the 401; nothing changes.
  pub foreign_signature_tells :
      (header hex : String) (s : GithubServer)
      → drop_prefix "sha256=" header ≡ some hex
      → is_ascii hex ≡ false
      → ((i : GithubInstallation)
          → installation n s.installations ≡ one i
          → receive_webhook services d event (some header) raw s
            ≡ ((if is_active i then server_error else unauthorized), s))
        × (installation n s.installations ≡ missing
            → receive_webhook services d event (some header) raw s ≡ (unauthorized, s))
  foreign_signature_tells header hex s prefix foreign = (
    λ i at.
        rw (routed_to (some header) s, at)
          (elim (Bool-cases (is_active i)) [
            | inl active ↦ rw (active, raises i.webhook_secret header hex prefix foreign) refl
            | inr revoked ↦ rw revoked refl
          ]),
    λ at. rw (routed_to (some header) s, at) refl,
  )
