-- ===== src/Crypto.antt =====
-- src/claudestruct/server/crypto.py: envelope encryption. Bytes are lists of numbers below 256.
pub mod Base64
pub mod RoundTrip
pub mod Keys
pub mod Boot
pub mod Fields
use claude_struct.Prelude.{
  ℕ, zero, suc, ◌+◌, Bool, String, Option, none, some, List, [], ◌∷◌, ◌++◌, ◌==◌, str_eq, ltb,
  if◌then◌else◌, length, take,
}
use claude_struct.Submission.{strip}

abbrev pub Bytes : Type 0
Bytes = List ℕ

-- `xs[n:]`.
abbrev pub drop {ℓ} : {A : Type ℓ} → ℕ → List A → List A
drop zero xs = xs
drop (suc n) [] = []
drop (suc n) (x ∷ xs) = drop n xs

-- `DEK_BYTES` and `NONCE_BYTES`.
abbrev pub dek_bytes : ℕ
dek_bytes = 32

abbrev pub nonce_bytes : ℕ
nonce_bytes = 12

-- `KMSError`, by its message.
pub data KmsError : Type 0 where
  dek_length : ℕ → KmsError
  provider_mismatch : String → String → KmsError
  too_short auth_failed empty_blob client_missing call_failed empty_ciphertext : KmsError
  plaintext_length : ℕ → KmsError
  passphrase_missing key_id_missing key_name_missing : KmsError
  unknown_provider : String → KmsError

pub data Result (A : Type 0) : Type 0 where
  ok : A → Result A
  err : KmsError → Result A

-- `WrappedDEK`.
pub record WrappedDek : Type 0 where
  pub provider : String
  pub key_id : String
  pub wrapped_bytes : Bytes

-- AES-GCM of the `cryptography` package: key, nonce, text and associated data. `none` is any
-- exception of `decrypt`.
pub record Aead : Type 0 where
  pub encrypt : Bytes → Bytes → Bytes → Bytes → Bytes
  pub decrypt : Bytes → Bytes → Bytes → Bytes → Option Bytes

-- The answer of AWS to `encrypt`; a key that is absent is `none`.
pub record AwsEncrypted : Type 0 where
  pub ciphertext_blob : Option Bytes
  pub key_id : Option String

-- The clients of AWS and GCP; `none` is an exception.
pub record AwsClient : Type 0 where
  pub encrypt : String → Bytes → Option AwsEncrypted
  pub decrypt : Bytes → String → Option (Option Bytes)

pub record GcpClient : Type 0 where
  pub encrypt : String → Bytes → Option (Option Bytes)
  pub decrypt : String → Bytes → Option (Option Bytes)

-- The three providers: `LocalKMSProvider` with its key, and `AwsKmsProvider` and `GcpKmsProvider`
-- with their configuration and, where the library can be imported, their client.
pub data Provider : Type 0 where
  local : Bytes → Provider
  aws : String → String → Option AwsClient → Provider
  gcp : String → Option GcpClient → Provider

unfoldable pub provider_name : Provider → String
provider_name (local _) = "local"
provider_name (aws _ _ _) = "aws"
provider_name (gcp _ _) = "gcp"

abbrev pub or_text : String → Option String → String
or_text d none = d
or_text d (some s) = s

abbrev pub wrapped : String → String → Option Bytes → Result WrappedDek
wrapped provider key_id none = err empty_ciphertext
wrapped provider key_id (some []) = err empty_ciphertext
wrapped provider key_id (some (b ∷ bs)) =
    ok (record { provider = provider; key_id = key_id; wrapped_bytes = b ∷ bs })

abbrev pub aws_wrapped : String → Option AwsEncrypted → Result WrappedDek
aws_wrapped key_id none = err call_failed
aws_wrapped key_id (some a) = wrapped "aws" (or_text key_id a.key_id) a.ciphertext_blob

abbrev pub gcp_wrapped : String → Option (Option Bytes) → Result WrappedDek
gcp_wrapped key_name none = err call_failed
gcp_wrapped key_name (some c) = wrapped "gcp" key_name c

abbrev pub plaintext_of : Option (Option Bytes) → Result Bytes
plaintext_of none = err call_failed
plaintext_of (some none) = err (plaintext_length 0)
plaintext_of (some (some p)) =
    if length p == dek_bytes then ok p else err (plaintext_length (length p))

abbrev pub decrypted : Option Bytes → Result Bytes
decrypted none = err auth_failed
decrypted (some p) = ok p

-- The associated data of a wrapped key, `b"cs-dek-wrap"`.
abbrev pub wrap_aad : Bytes
wrap_aad = b'c' ∷ b's' ∷ b'-' ∷ b'd' ∷ b'e' ∷ b'k' ∷ b'-' ∷ b'w' ∷ b'r' ∷ b'a' ∷ b'p' ∷ []

module _ (aead : Aead) where
  -- `nonce + ct`, and back.
  abbrev pub sealed : Bytes → Bytes → Bytes → Bytes → Bytes
  sealed key nonce text aad = nonce ++ aead.encrypt key nonce text aad

  abbrev pub opened : KmsError → Bytes → Bytes → Bytes → Result Bytes
  opened short key blob aad =
      if ltb (length blob) (nonce_bytes + 16)
      then err short
      else decrypted (aead.decrypt key (take nonce_bytes blob) (drop nonce_bytes blob) aad)

  abbrev pub wrap_by : Provider → Bytes → Bytes → Result WrappedDek
  wrap_by (local kek) nonce dek = ok (record {
    provider = "local";
    key_id = "local";
    wrapped_bytes = sealed kek nonce dek wrap_aad;
  })
  wrap_by (aws region key_id none) nonce dek = err client_missing
  wrap_by (aws region key_id (some client)) nonce dek =
      aws_wrapped key_id (client.encrypt key_id dek)
  wrap_by (gcp key_name none) nonce dek = err client_missing
  wrap_by (gcp key_name (some client)) nonce dek =
      gcp_wrapped key_name (client.encrypt key_name dek)

  -- `wrap` of the three providers; `nonce` is what `token_bytes` gives the local one.
  unfoldable pub wrap : Provider → Bytes → Bytes → Result WrappedDek
  wrap p nonce dek =
      if length dek == dek_bytes then wrap_by p nonce dek else err (dek_length (length dek))

  abbrev pub aws_unwrap : WrappedDek → Bytes → Option AwsClient → Result Bytes
  aws_unwrap w [] client = err empty_blob
  aws_unwrap w (b ∷ bs) none = err client_missing
  aws_unwrap w (b ∷ bs) (some client) = plaintext_of (client.decrypt (b ∷ bs) w.key_id)

  abbrev pub gcp_unwrap : WrappedDek → Bytes → Option GcpClient → Result Bytes
  gcp_unwrap w [] client = err empty_blob
  gcp_unwrap w (b ∷ bs) none = err client_missing
  gcp_unwrap w (b ∷ bs) (some client) = plaintext_of (client.decrypt w.key_id (b ∷ bs))

  abbrev pub unwrap_by : Provider → WrappedDek → Result Bytes
  unwrap_by (local kek) w = opened too_short kek w.wrapped_bytes wrap_aad
  unwrap_by (aws region key_id client) w = aws_unwrap w w.wrapped_bytes client
  unwrap_by (gcp key_name client) w = gcp_unwrap w w.wrapped_bytes client

  -- `unwrap` of the three providers.
  unfoldable pub unwrap : Provider → WrappedDek → Result Bytes
  unfolding provider_name
  unwrap p w =
      if str_eq w.provider (provider_name p)
      then unwrap_by p w
      else err (provider_mismatch (provider_name p) w.provider)

  -- `encrypt_field`, with the nonce that `token_bytes` gives, and `decrypt_field`.
  unfoldable pub encrypt_field : Bytes → Bytes → Bytes → Bytes → Result Bytes
  encrypt_field dek nonce text aad =
      if length dek == dek_bytes
      then ok (sealed dek nonce text aad)
      else err (dek_length (length dek))

  unfoldable pub decrypt_field : Bytes → Bytes → Bytes → Result Bytes
  decrypt_field dek blob aad = opened too_short dek blob aad

-- The environment, `str.lower`, the derivation of a key from a passphrase, a fresh random key, and
-- the clients that the libraries make.
pub record Env : Type 0 where
  pub get : String → Option String
  pub lower : String → String
  pub pbkdf2 : String → Bytes
  pub token_bytes : Bytes
  pub aws_client : Option AwsClient
  pub gcp_client : Option GcpClient

abbrev pub is_set : Option String → Bool
is_set none = Bool.false
is_set (some s) = if str_eq s "" then Bool.false else Bool.true

-- `LocalKMSProvider.__post_init__`.
unfoldable pub new_local : Env → Provider
new_local env = local (
    if is_set (env.get "CLAUDESTRUCT_KEK_PASSPHRASE")
    then env.pbkdf2 (or_text "" (env.get "CLAUDESTRUCT_KEK_PASSPHRASE"))
    else env.token_bytes)

abbrev pub new_aws : Env → String → Result Provider
new_aws env key_id =
    if str_eq key_id ""
    then err key_id_missing
    else ok (aws (or_text "us-east-1" (env.get "AWS_REGION")) key_id env.aws_client)

abbrev pub new_gcp : Env → String → Result Provider
new_gcp env key_name =
    if str_eq key_name "" then err key_name_missing else ok (gcp key_name env.gcp_client)

abbrev pub provider_called : Env → Bool → String → Result Provider
provider_called env allow_random_kek name =
    if str_eq name "local"
    then (if allow_random_kek
        then ok (new_local env)
        else if is_set (env.get "CLAUDESTRUCT_KEK_PASSPHRASE")
        then ok (new_local env)
        else err passphrase_missing)
    else if str_eq name "aws"
    then new_aws env (strip (or_text "" (env.get "CLAUDESTRUCT_AWS_KMS_KEY_ID")))
    else if str_eq name "gcp"
    then new_gcp env (strip (or_text "" (env.get "CLAUDESTRUCT_GCP_KMS_KEY_NAME")))
    else err (unknown_provider name)

-- `default_provider`.
unfoldable pub default_provider : Env → Bool → Result Provider
unfolding new_local strip
default_provider env allow_random_kek =
    provider_called env allow_random_kek
      (env.lower (strip (or_text "local" (env.get "CLAUDESTRUCT_KMS_PROVIDER"))))
