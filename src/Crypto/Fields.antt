-- ===== src/Crypto/Fields.antt =====
-- `encrypt_field` and `decrypt_field` of src/claudestruct/server/crypto.py.
use claude_struct.Prelude.{
  ℕ, zero, suc, ◌+◌, ◌≤◌, ◌≡◌, refl, sym, ap, ◌∙◌, false, Bool-cases, inl, inr, Option, none, some,
  [], ◌∷◌, ◌++◌, ltb, length, take, length-append, arith,
}
use claude_struct.Crypto.{
  Bytes, drop, dek_bytes, nonce_bytes, KmsError, too_short, ok, Aead, decrypted, sealed, opened,
  encrypt_field, decrypt_field,
}

-- AES-GCM: what is encrypted is decrypted under the same key, nonce and associated data; a
-- ciphertext is 16 bytes longer than its text; and only the ciphertext of a text decrypts to it.
pub record IsAead (aead : Aead) : Type 0 where
  pub decrypts :
      (key nonce text aad : Bytes)
      → aead.decrypt key nonce (aead.encrypt key nonce text aad) aad ≡ some text
  pub tagged :
      (key nonce text aad : Bytes) → length (aead.encrypt key nonce text aad) ≡ length text + 16
  pub authentic :
      (key nonce c aad text : Bytes)
      → aead.decrypt key nonce c aad ≡ some text
      → c ≡ aead.encrypt key nonce text aad

take-append : (xs ys : Bytes) (n : ℕ) → length xs ≡ n → take n (xs ++ ys) ≡ xs
take-append [] ys zero h = refl
take-append [] ys (suc n) h = absurd (omega arith)
take-append (x ∷ xs) ys zero h = absurd (omega arith)
take-append (x ∷ xs) ys (suc n) h = ap (λ zs. x ∷ zs) (take-append xs ys n (omega arith))

drop-append : (xs ys : Bytes) (n : ℕ) → length xs ≡ n → drop n (xs ++ ys) ≡ ys
drop-append [] ys zero h = refl
drop-append [] ys (suc n) h = absurd (omega arith)
drop-append (x ∷ xs) ys zero h = absurd (omega arith)
drop-append (x ∷ xs) ys (suc n) h = drop-append xs ys n (omega arith)

take-append-drop : (n : ℕ) (xs : Bytes) → take n xs ++ drop n xs ≡ xs
take-append-drop zero xs = refl
take-append-drop (suc n) [] = refl
take-append-drop (suc n) (x ∷ xs) = ap (λ zs. x ∷ zs) (take-append-drop n xs)

length-take : (n : ℕ) (xs : Bytes) → n ≤ length xs → length (take n xs) ≡ n
length-take zero xs h = refl
length-take (suc n) [] h = absurd (omega arith)
length-take (suc n) (x ∷ xs) h = omega (arith, length-take n xs (omega arith))

module _ (aead : Aead) (law : IsAead aead) where
  pub length-sealed :
      (key nonce text aad : Bytes)
      → length (sealed aead key nonce text aad) ≡ length nonce + (length text + 16)
  length-sealed key nonce text aad =
      omega (
        arith,
        length-append nonce (aead.encrypt key nonce text aad),
        law.tagged key nonce text aad,
      )

  -- What was sealed with a nonce of 12 bytes opens.
  pub opened-sealed :
      (short : KmsError) (key nonce text aad : Bytes)
      → length nonce ≡ nonce_bytes
      → opened aead short key (sealed aead key nonce text aad) aad ≡ ok text
  opened-sealed short key nonce text aad h =
      let long : ltb (length (sealed aead key nonce text aad)) (nonce_bytes + 16) ≡ false =
        ground (arith, length-sealed key nonce text aad) in
      rw
        (
          long,
          take-append nonce (aead.encrypt key nonce text aad) nonce_bytes h,
          drop-append nonce (aead.encrypt key nonce text aad) nonce_bytes h,
          law.decrypts key nonce text aad,
        )
        refl

  decrypted-ok : (o : Option Bytes) (text : Bytes) → decrypted o ≡ ok text → o ≡ some text
  decrypted-ok none text h = cc
  decrypted-ok (some p) text h = cc

  -- What opens was sealed.
  pub sealed_of_opened :
      (short : KmsError) (key blob aad text : Bytes)
      → opened aead short key blob aad ≡ ok text
      → (nonce : Bytes) × (length nonce ≡ nonce_bytes) × (blob ≡ sealed aead key nonce text aad)
  sealed_of_opened short key blob aad text h =
      elim (Bool-cases (ltb (length blob) (nonce_bytes + 16))) [
        | inl brief ↦ cc (rw brief at h)
        | inr long ↦
            (let nonce = take nonce_bytes blob in
              let room : nonce_bytes ≤ length blob = ground arith in
              let made =
                law.authentic key nonce (drop nonce_bytes blob) aad text
                  (decrypted-ok _ text (rw long at h)) in
              (
                nonce,
                length-take nonce_bytes blob room,
                sym (take-append-drop nonce_bytes blob) ∙ ap (λ c. nonce ++ c) made,
              ))
      ]

  -- Two sealed blobs that are one have one nonce and one ciphertext.
  same_sealed :
      (key key' nonce nonce' text text' aad aad' : Bytes)
      → length nonce ≡ nonce_bytes
      → length nonce' ≡ nonce_bytes
      → sealed aead key nonce text aad ≡ sealed aead key' nonce' text' aad'
      → (nonce ≡ nonce') × (aead.encrypt key nonce text aad ≡ aead.encrypt key' nonce' text' aad')
  same_sealed key key' nonce nonce' text text' aad aad' n n' e = (
    sym (take-append nonce (aead.encrypt key nonce text aad) nonce_bytes n)
        ∙ ap (take nonce_bytes) e
        ∙ take-append nonce' (aead.encrypt key' nonce' text' aad') nonce_bytes n',
    sym (drop-append nonce (aead.encrypt key nonce text aad) nonce_bytes n)
        ∙ ap (drop nonce_bytes) e
        ∙ drop-append nonce' (aead.encrypt key' nonce' text' aad') nonce_bytes n',
  )

  -- Under a key of 32 bytes and a fresh nonce of 12, a field is encrypted to a blob 28 bytes longer,
  -- which decrypts to it with the same associated data; whatever blob decrypts to a text with some
  -- associated data is one that `encrypt_field` makes of that text and data; and a blob that was
  -- made with other associated data decrypts only where AES-GCM, under that key and nonce, has one
  -- output for the two texts and their two associated data.
  pub decrypt_field-encrypt_field :
      (dek aad : Bytes)
      → length dek ≡ dek_bytes
      → ((nonce text : Bytes)
          → length nonce ≡ nonce_bytes
          → (blob : Bytes) × (encrypt_field aead dek nonce text aad ≡ ok blob)
            × (length blob ≡ length text + 28)
            × (decrypt_field aead dek blob aad ≡ ok text))
        × ((blob text : Bytes)
            → decrypt_field aead dek blob aad ≡ ok text
            → (nonce : Bytes) × (length nonce ≡ nonce_bytes)
              × (encrypt_field aead dek nonce text aad ≡ ok blob))
        × ((nonce text other text' blob : Bytes)
            → length nonce ≡ nonce_bytes
            → encrypt_field aead dek nonce text other ≡ ok blob
            → decrypt_field aead dek blob aad ≡ ok text'
            → aead.encrypt dek nonce text other ≡ aead.encrypt dek nonce text' aad)
  unfolding encrypt_field decrypt_field
  decrypt_field-encrypt_field dek aad key_is = (
    λ nonce text h. (
      sealed aead dek nonce text aad,
      ground arith,
      omega (arith, length-sealed dek nonce text aad),
      opened-sealed too_short dek nonce text aad h,
    ),
    λ blob text h.
        let (nonce, is, made) = sealed_of_opened too_short dek blob aad text h in
        (nonce, is, ground arith),
    λ nonce text other text' blob h made h'.
        let (nonce', is, made') = sealed_of_opened too_short dek blob aad text' h' in
        let one : sealed aead dek nonce text other ≡ blob = ground (arith, made) in
        let (same, e) = same_sealed dek dek nonce nonce' text text' other aad h is (one ∙ made') in
        e ∙ ap (λ n. aead.encrypt dek n text' aad) (sym same),
  )
