-- ===== src/Crypto/Keys.antt =====
-- Data keys under the three providers of src/claudestruct/server/crypto.py.
use claude_struct.Prelude.{
  ℕ, ◌≡◌, ◌≢◌, refl, sym, ap, ◌∙◌, Bool-cases, inl, inr, String, Option, none, some, List, [], ◌∷◌,
  str_eq, eq_iff, length, arith,
}
use claude_struct.Crypto.{
  Bytes, dek_bytes, nonce_bytes, provider_mismatch, too_short, ok, err, WrappedDek, Aead,
  AwsEncrypted, AwsClient, GcpClient, Provider, local, aws, gcp, provider_name, or_text, wrapped,
  aws_wrapped, gcp_wrapped, plaintext_of, wrap_aad, sealed, wrap_by, wrap, aws_unwrap, gcp_unwrap,
  unwrap_by, unwrap,
}
use claude_struct.Crypto.Fields.{IsAead, opened-sealed}

-- What a key service promises: what it encrypted it decrypts, under the key id that it gave, or
-- that it was asked for.
abbrev pub KeepsKeys : Provider → Type 0
KeepsKeys (local kek) = Unit {0}
KeepsKeys (aws region key_id none) = Unit {0}
KeepsKeys (aws region key_id (some client)) =
    (dek blob : Bytes) (a : AwsEncrypted)
    → client.encrypt key_id dek ≡ some a
    → a.ciphertext_blob ≡ some blob
    → client.decrypt blob (or_text key_id a.key_id) ≡ some (some dek)
KeepsKeys (gcp key_name none) = Unit {0}
KeepsKeys (gcp key_name (some client)) =
    (dek blob : Bytes)
    → client.encrypt key_name dek ≡ some (some blob)
    → client.decrypt key_name blob ≡ some (some dek)

-- A wrapped key that a service returned: its parts.
record IsWrapped (provider key_id : String) (c : Option Bytes) (w : WrappedDek) : Type 0 where
  blob : List ℕ
  first : ℕ
  there : c ≡ some (first ∷ blob)
  bytes : w.wrapped_bytes ≡ first ∷ blob
  by : w.provider ≡ provider
  under : w.key_id ≡ key_id

wrapped-ok :
    (provider key_id : String) (c : Option Bytes) (w : WrappedDek)
    → wrapped provider key_id c ≡ ok w
    → IsWrapped provider key_id c w
wrapped-ok provider key_id none w h = cc
wrapped-ok provider key_id (some []) w h = cc
wrapped-ok provider key_id (some (b ∷ bs)) w h = record {
  blob = bs;
  first = b;
  there = refl;
  bytes = ground arith;
  by = ground arith;
  under = ground arith;
}

module _ (aead : Aead) (law : IsAead aead) (nonce dek : Bytes)
    (key_is : length dek ≡ dek_bytes) where
  plaintext_is : (o : Option (Option Bytes)) → o ≡ some (some dek) → plaintext_of o ≡ ok dek
  plaintext_is o e = rw (e, key_is) refl

  aws_unwraps :
      (region key_id : String) (client : AwsClient) (w : WrappedDek) (o : Option AwsEncrypted)
      → KeepsKeys (aws region key_id (some client))
      → client.encrypt key_id dek ≡ o
      → aws_wrapped key_id o ≡ ok w
      → (w.provider ≡ "aws") × (aws_unwrap aead w w.wrapped_bytes (some client) ≡ ok dek)
  aws_unwraps region key_id client w none keeps e h = cc
  aws_unwraps region key_id client w (some a) keeps e h =
      let k = wrapped-ok "aws" (or_text key_id a.key_id) a.ciphertext_blob w h in
      (k.by, rw (k.bytes, k.under) (plaintext_is _ (keeps dek (k.first ∷ k.blob) a e k.there)))

  gcp_unwraps :
      (key_name : String) (client : GcpClient) (w : WrappedDek) (o : Option (Option Bytes))
      → KeepsKeys (gcp key_name (some client))
      → client.encrypt key_name dek ≡ o
      → gcp_wrapped key_name o ≡ ok w
      → (w.provider ≡ "gcp") × (gcp_unwrap aead w w.wrapped_bytes (some client) ≡ ok dek)
  gcp_unwraps key_name client w none keeps e h = cc
  gcp_unwraps key_name client w (some c) keeps e h =
      let k = wrapped-ok "gcp" key_name c w h in
      (
        k.by,
        rw (k.bytes, k.under) (plaintext_is _ (keeps dek (k.first ∷ k.blob) (e ∙ ap some k.there))),
      )

  unwraps :
      (p : Provider) (w : WrappedDek)
      → length nonce ≡ nonce_bytes
      → KeepsKeys p
      → wrap_by aead p nonce dek ≡ ok w
      → (w.provider ≡ provider_name p) × (unwrap_by aead p w ≡ ok dek)
  unfolding provider_name
  unwraps (local kek) w n keeps h =
      let is : record {
        provider = "local";
        key_id = "local";
        wrapped_bytes = sealed aead kek nonce dek wrap_aad;
      }
          ≡ w =
        cc h in
      (
        ap (λ v. v.provider) (sym is),
        rw (← is) (opened-sealed aead law too_short kek nonce dek wrap_aad n),
      )
  unwraps (aws region key_id none) w n keeps h = cc
  unwraps (aws region key_id (some client)) w n keeps h =
      aws_unwraps region key_id client w _ keeps refl h
  unwraps (gcp key_name none) w n keeps h = cc
  unwraps (gcp key_name (some client)) w n keeps h = gcp_unwraps key_name client w _ keeps refl h

  -- A data key of 32 bytes that a provider has wrapped, with a nonce of 12 bytes where it is the
  -- local one, is unwrapped by that provider to the same key, and every provider of another name
  -- refuses it for that reason; and the local provider does wrap it.
  pub unwrap-wrap :
      length nonce ≡ nonce_bytes
      → ((p : Provider) (w : WrappedDek)
          → KeepsKeys p
          → wrap aead p nonce dek ≡ ok w
          → (unwrap aead p w ≡ ok dek)
            × ((q : Provider)
                → provider_name q ≢ provider_name p
                → unwrap aead q w ≡ err (provider_mismatch (provider_name q) w.provider)))
        × ((kek : Bytes) → (w : WrappedDek) × (wrap aead (local kek) nonce dek ≡ ok w))
  unfolding wrap unwrap
  unwrap-wrap n = (
    λ p w keeps h.
        let (by, opens) = unwraps p w n keeps (rw key_is at h) in
        (
          rw ((eq_iff w.provider (provider_name p)).1 by) opens,
          λ q other. elim (Bool-cases (str_eq w.provider (provider_name q))) [
            | inl same ↦ absurd (other (sym ((eq_iff w.provider (provider_name q)).0 same) ∙ by))
            | inr differs ↦ rw differs refl
          ],
        ),
    λ kek. (
      record {
        provider = "local";
        key_id = "local";
        wrapped_bytes = sealed aead kek nonce dek wrap_aad;
      },
      rw key_is refl,
    ),
  )
