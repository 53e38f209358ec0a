-- ===== src/Tests/Sealing.antt =====
-- Envelope encryption with a toy cipher, whose tag is the length of the associated data and fifteen
-- zeros before the text.
use claude_struct.Prelude.{
  ℕ, zero, suc, ◌+◌, ◌%◌, ◌≡◌, ◌≢◌, refl, false, String, Option, some, none, [], ◌∷◌, ◌==◌, ==_iff,
  str_eq, if◌then◌else◌, length, arith,
}
use claude_struct.Crypto.{
  Bytes, nonce_bytes, provider_mismatch, ok, err, WrappedDek, Aead, AwsClient, Provider, local, aws,
  provider_name, wrap, unwrap, encrypt_field, decrypt_field, Env, new_local, default_provider,
}
use claude_struct.Crypto.Base64.{encode_b64, decode_b64}
use claude_struct.Crypto.RoundTrip.{decode_b64-encode_b64}
use claude_struct.Crypto.Fields.{IsAead, decrypt_field-encrypt_field}
use claude_struct.Crypto.Keys.{KeepsKeys, unwrap-wrap}
use claude_struct.Crypto.Boot.{default_provider-Derived}
use claude_struct.Submission.{strip}

abbrev with_zeros : ℕ → Bytes → Bytes
with_zeros zero t = t
with_zeros (suc n) t = 0 ∷ with_zeros n t

abbrev strip_zeros : ℕ → Bytes → Option Bytes
strip_zeros zero t = some t
strip_zeros (suc n) [] = none
strip_zeros (suc n) (x ∷ xs) = if x == 0 then strip_zeros n xs else none

strips_zeros : (n : ℕ) (t : Bytes) → strip_zeros n (with_zeros n t) ≡ some t
strips_zeros zero t = refl
strips_zeros (suc n) t = strips_zeros n t

length-with_zeros : (n : ℕ) (t : Bytes) → length (with_zeros n t) ≡ length t + n
length-with_zeros zero t = omega arith
length-with_zeros (suc n) t = omega (arith, length-with_zeros n t)

zeros_were_there : (n : ℕ) (c t : Bytes) → strip_zeros n c ≡ some t → c ≡ with_zeros n t
zeros_were_there zero c t h = ground arith
zeros_were_there (suc n) [] t h = cc
zeros_were_there (suc n) (x ∷ xs) t h = ground (arith, ==_iff x 0, zeros_were_there n xs t)

abbrev strip_length : ℕ → Bytes → Option Bytes
strip_length n [] = none
strip_length n (x ∷ xs) = if x == n then strip_zeros 15 xs else none

strips_length : (n : ℕ) (t : Bytes) → strip_length n (n ∷ with_zeros 15 t) ≡ some t
strips_length n t = rw ((==_iff n n).1 refl) (strips_zeros 15 t)

length_was_there : (n : ℕ) (c t : Bytes) → strip_length n c ≡ some t → c ≡ n ∷ with_zeros 15 t
length_was_there n [] t h = cc
length_was_there n (x ∷ xs) t h = ground (arith, ==_iff x n, zeros_were_there 15 xs t)

abbrev toy : Aead
toy = record {
  encrypt = λ key nonce text aad. (length aad % 256) ∷ with_zeros 15 text;
  decrypt = λ key nonce c aad. strip_length (length aad % 256) c;
}

toy-IsAead : IsAead toy
toy-IsAead = record {
  decrypts = λ key nonce text aad. strips_length (length aad % 256) text;
  tagged = λ key nonce text aad. omega (arith, length-with_zeros 15 text);
  authentic = λ key nonce c aad text h. length_was_there (length aad % 256) c text h;
}

abbrev a_dek : Bytes
a_dek = with_zeros 31 (7 ∷ [])

abbrev a_nonce : Bytes
a_nonce = with_zeros 11 (9 ∷ [])

abbrev a_context : Bytes
a_context = b'o' ∷ b'r' ∷ b'g' ∷ []

decode_b64-encode_b64_example :
    decode_b64 (encode_b64 (255 ∷ 0 ∷ 17 ∷ 90 ∷ [])) ≡ some (255 ∷ 0 ∷ 17 ∷ 90 ∷ [])
decode_b64-encode_b64_example =
    decode_b64-encode_b64 (255 ∷ 0 ∷ 17 ∷ 90 ∷ [])
      (omega arith, (omega arith, (omega arith, (omega arith, tt))))

-- The text is the one that RFC 4648 gives, without padding.
encoded_text :
    encode_b64 (b'f' ∷ b'o' ∷ b'o' ∷ b'b' ∷ []) ≡ b'Z' ∷ b'm' ∷ b'9' ∷ b'v' ∷ b'Y' ∷ b'g' ∷ []
unfolding encode_b64
encoded_text = refl

decrypt_field-encrypt_field_example :
    ((nonce text : Bytes)
      → length nonce ≡ nonce_bytes
      → (blob : Bytes) × (encrypt_field toy a_dek nonce text a_context ≡ ok blob)
        × (length blob ≡ length text + 28)
        × (decrypt_field toy a_dek blob a_context ≡ ok text))
    × ((blob text : Bytes)
        → decrypt_field toy a_dek blob a_context ≡ ok text
        → (nonce : Bytes) × (length nonce ≡ nonce_bytes)
          × (encrypt_field toy a_dek nonce text a_context ≡ ok blob))
    × ((nonce text other text' blob : Bytes)
        → length nonce ≡ nonce_bytes
        → encrypt_field toy a_dek nonce text other ≡ ok blob
        → decrypt_field toy a_dek blob a_context ≡ ok text'
        → toy.encrypt a_dek nonce text other ≡ toy.encrypt a_dek nonce text' a_context)
decrypt_field-encrypt_field_example =
    decrypt_field-encrypt_field toy toy-IsAead a_dek a_context refl

unwrap-wrap_example :
    ((p : Provider) (w : WrappedDek)
      → KeepsKeys p
      → wrap toy p a_nonce a_dek ≡ ok w
      → (unwrap toy p w ≡ ok a_dek)
        × ((q : Provider)
            → provider_name q ≢ provider_name p
            → unwrap toy q w ≡ err (provider_mismatch (provider_name q) w.provider)))
    × ((kek : Bytes) → (w : WrappedDek) × (wrap toy (local kek) a_nonce a_dek ≡ ok w))
unwrap-wrap_example = unwrap-wrap toy toy-IsAead a_nonce a_dek refl refl

-- A key service that hands the key out as its own ciphertext, under another id than it was asked for.
abbrev a_client : AwsClient
a_client = record {
  encrypt = λ key_id dek. some (record { ciphertext_blob = some dek; key_id = some "arn" });
  decrypt = λ blob key_id. if str_eq key_id "arn" then some (some blob) else none;
}

keeps_keys : KeepsKeys (aws "eu" "alias" (some a_client))
keeps_keys dek blob a made is =
    let is_so : record { ciphertext_blob = some dek; key_id = some "arn" } ≡ a = cc made in
    rw (← is_so) (cc (rw (← is_so) at is))

abbrev an_env : Env
an_env = record {
  get = λ name. if str_eq name "CLAUDESTRUCT_KEK_PASSPHRASE" then some "swordfish" else none;
  lower = λ s. s;
  pbkdf2 = λ phrase. a_dek;
  token_bytes = a_nonce;
  aws_client = none;
  gcp_client = none;
}

boots : default_provider an_env false ≡ ok (local a_dek)
unfolding default_provider new_local strip
boots = refl

default_provider-Derived_example :
    (phrase : String) × (an_env.get "CLAUDESTRUCT_KEK_PASSPHRASE" ≡ some phrase)
    × (phrase ≢ "")
    × (a_dek ≡ an_env.pbkdf2 phrase)
default_provider-Derived_example = default_provider-Derived an_env a_dek boots
