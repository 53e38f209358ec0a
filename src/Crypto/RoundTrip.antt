-- ===== src/Crypto/RoundTrip.antt =====
-- `encode_b64` and `decode_b64` of src/claudestruct/server/crypto.py.
use claude_struct.Prelude.{
  ℕ, suc, ◌+◌, ◌-◌, ◌*◌, ◌/◌, ◌%◌, ◌<◌, ◌≡◌, refl, ap, ◌∙◌, false, Option, none, some, List, [],
  ◌∷◌, ◌++◌, ◌==◌, length, All, arith,
}
use claude_struct.Crypto.Base64.{
  char_of, digit_of, b64encode, rstrip_pad, encode_b64, Reading, take_digit, move, put, a2b_base64,
  pads, start, decode_b64,
}

digit_of-char_of : (d : ℕ) → d < 64 → digit_of (char_of d) ≡ some d
unfolding digit_of char_of
digit_of-char_of d h = ground arith

char_of-ne-pad : (d : ℕ) → d < 64 → (char_of d == b'=') ≡ false
unfolding char_of
char_of-ne-pad d h = ground arith

move-char_of : (r : Reading) (d : ℕ) → d < 64 → move r (char_of d) ≡ take_digit r d
unfolding move
move-char_of r d h = rw (char_of-ne-pad d h, digit_of-char_of d h) refl

put-nil : (o : Option (List ℕ)) → put [] o ≡ o
put-nil none = refl
put-nil (some bs) = refl

abbrev at : ℕ → ℕ → Reading
at pos left = record { quad_pos = pos; left = left; pads = 0 }

module _ (d : ℕ) (h : d < 64) (s : List ℕ) (left : ℕ) where
  step_0 : a2b_base64 (char_of d ∷ s) (at 0 left) ≡ a2b_base64 s (at 1 d)
  unfolding a2b_base64
  step_0 = rw (move-char_of (at 0 left) d h, a2b_base64) (put-nil _)

  step_1 :
      a2b_base64 (char_of d ∷ s) (at 1 left)
      ≡ put ((left * 4 + d / 16) ∷ []) (a2b_base64 s (at 2 (d % 16)))
  unfolding a2b_base64
  step_1 = rw (move-char_of (at 1 left) d h, a2b_base64) refl

  step_2 :
      a2b_base64 (char_of d ∷ s) (at 2 left)
      ≡ put ((left * 16 + d / 4) ∷ []) (a2b_base64 s (at 3 (d % 4)))
  unfolding a2b_base64
  step_2 = rw (move-char_of (at 2 left) d h, a2b_base64) refl

  step_3 :
      a2b_base64 (char_of d ∷ s) (at 3 left) ≡ put ((left * 64 + d) ∷ []) (a2b_base64 s (at 0 0))
  unfolding a2b_base64
  step_3 = rw (move-char_of (at 3 left) d h, a2b_base64) refl

rstrip_pad-keep : (c : ℕ) (s : List ℕ) → (c == b'=') ≡ false → rstrip_pad (c ∷ s) ≡ c ∷ rstrip_pad s
unfolding rstrip_pad
rstrip_pad-keep c s h = ground arith

-- The encoding with no padding.
core : List ℕ → List ℕ
core [] = []
core (a ∷ []) = char_of (a / 4) ∷ char_of (a % 4 * 16) ∷ []
core (a ∷ b ∷ []) = char_of (a / 4) ∷ char_of (a % 4 * 16 + b / 16) ∷ char_of (b % 16 * 4) ∷ []
core (a ∷ b ∷ c ∷ rest) =
    char_of (a / 4)
    ∷ char_of (a % 4 * 16 + b / 16)
    ∷ char_of (b % 16 * 4 + c / 64)
    ∷ char_of (c % 64)
    ∷ core rest

keep_char :
    (d : ℕ) (s t : List ℕ) → d < 64 → rstrip_pad s ≡ t → rstrip_pad (char_of d ∷ s) ≡ char_of d ∷ t
keep_char d s t h e = rstrip_pad-keep (char_of d) s (char_of-ne-pad d h) ∙ ap (λ u. char_of d ∷ u) e

abbrev AllBytes : List ℕ → Type 0
AllBytes bs = All (λ b. b < 256) bs

no_chars : rstrip_pad [] ≡ []
unfolding rstrip_pad
no_chars = refl

one_pad : rstrip_pad (b'=' ∷ []) ≡ []
unfolding rstrip_pad
one_pad = refl

two_pads : rstrip_pad (b'=' ∷ b'=' ∷ []) ≡ []
unfolding rstrip_pad
two_pads = refl

strips : (bs : List ℕ) → AllBytes bs → rstrip_pad (b64encode bs) ≡ core bs
unfolding b64encode core
strips [] h = no_chars
strips (a ∷ []) h =
    keep_char (a / 4) _ _ (omega (arith, h.0)) (keep_char (a % 4 * 16) _ _ (omega arith) two_pads)
strips (a ∷ b ∷ []) h = keep_char (a / 4) _ _ (omega (arith, h.0)) (
    keep_char (a % 4 * 16 + b / 16) _ _ (omega (arith, h.1.0))
      (keep_char (b % 16 * 4) _ _ (omega arith) one_pad))
strips (a ∷ b ∷ c ∷ rest) h = keep_char (a / 4) _ _ (omega (arith, h.0)) (
    keep_char (a % 4 * 16 + b / 16) _ _ (omega (arith, h.1.0)) (
      keep_char (b % 16 * 4 + c / 64) _ _ (omega (arith, h.1.1.0))
        (keep_char (c % 64) _ _ (omega arith) (strips rest h.1.1.1))))

abbrev pad_of : ℕ → ℕ
pad_of n = (4 - n % 4) % 4

encode_b64-core : (bs : List ℕ) → AllBytes bs → encode_b64 bs ≡ core bs
unfolding encode_b64
encode_b64-core bs h = strips bs h

-- A group of four characters with the digits of three bytes.
reads_group :
    (a b c : ℕ) (s : List ℕ)
    → a < 256
    → b < 256
    → c < 256
    → a2b_base64
        (char_of (a / 4)
          ∷ char_of (a % 4 * 16 + b / 16)
          ∷ char_of (b % 16 * 4 + c / 64)
          ∷ char_of (c % 64)
          ∷ s)
        start
      ≡ put (a ∷ []) (put (b ∷ []) (put (c ∷ []) (a2b_base64 s start)))
reads_group a b c s ha hb hc =
    let first : a / 4 * 4 + (a % 4 * 16 + b / 16) / 16 ≡ a = omega arith in
    let second : (a % 4 * 16 + b / 16) % 16 * 16 + (b % 16 * 4 + c / 64) / 4 ≡ b = omega arith in
    let third : (b % 16 * 4 + c / 64) % 4 * 64 + c % 64 ≡ c = omega arith in
    step_0 (a / 4) (omega arith) _ 0
    ∙ step_1 (a % 4 * 16 + b / 16) (omega arith) _ (a / 4)
    ∙ rw first (
        ap (put (a ∷ [])) (
          step_2 (b % 16 * 4 + c / 64) (omega arith) _ ((a % 4 * 16 + b / 16) % 16)
          ∙ rw second (
              ap (put (b ∷ []))
                (step_3 (c % 64) (omega arith) s ((b % 16 * 4 + c / 64) % 4) ∙ rw third refl))))

put-some :
    (b : ℕ) (o : Option (List ℕ)) (bs : List ℕ) → o ≡ some bs → put (b ∷ []) o ≡ some (b ∷ bs)
put-some b o bs e = rw e refl

ends_2 : (left : ℕ) → a2b_base64 (b'=' ∷ b'=' ∷ []) (at 2 left) ≡ some []
unfolding a2b_base64
ends_2 left = refl

ends_3 : (left : ℕ) → a2b_base64 (b'=' ∷ []) (at 3 left) ≡ some []
unfolding a2b_base64
ends_3 left = refl

ends : a2b_base64 [] start ≡ some []
unfolding a2b_base64
ends = refl

reads :
    (bs : List ℕ)
    → AllBytes bs
    → a2b_base64 (core bs ++ pads (pad_of (length (core bs)))) start ≡ some bs
unfolding core
reads [] h = ends
reads (a ∷ []) h =
    let low : a < 256 = h.0 in
    let first : a / 4 * 4 + a % 4 * 16 / 16 ≡ a = omega arith in
    step_0 (a / 4) (omega arith) _ 0
    ∙ step_1 (a % 4 * 16) (omega arith) _ (a / 4)
    ∙ rw first (put-some a _ [] (ends_2 (a % 4 * 16 % 16)))
reads (a ∷ b ∷ []) h =
    let low_a : a < 256 = h.0 in
    let low_b : b < 256 = h.1.0 in
    let first : a / 4 * 4 + (a % 4 * 16 + b / 16) / 16 ≡ a = omega arith in
    let second : (a % 4 * 16 + b / 16) % 16 * 16 + b % 16 * 4 / 4 ≡ b = omega arith in
    step_0 (a / 4) (omega arith) _ 0
    ∙ step_1 (a % 4 * 16 + b / 16) (omega arith) _ (a / 4)
    ∙ rw first (
        put-some a _ (b ∷ []) (
          step_2 (b % 16 * 4) (omega arith) _ ((a % 4 * 16 + b / 16) % 16)
          ∙ rw second (put-some b _ [] (ends_3 (b % 16 * 4 % 4)))))
reads (a ∷ b ∷ c ∷ rest) h =
    let same : pad_of (suc (suc (suc (suc (length (core rest)))))) ≡ pad_of (length (core rest)) =
      omega arith in
    rw same (
      reads_group a b c _ h.0 h.1.0 h.1.1.0
      ∙ put-some a _ _ (put-some b _ _ (put-some c _ _ (reads rest h.1.1.1))))

-- The text that `encode_b64` makes of bytes, its padding dropped, is read back by `decode_b64` to
-- the same bytes, whatever their number.
pub decode_b64-encode_b64 :
    (bytes : List ℕ) → All (λ b. b < 256) bytes → decode_b64 (encode_b64 bytes) ≡ some bytes
unfolding decode_b64
decode_b64-encode_b64 bytes h = rw (encode_b64-core bytes h) (reads bytes h)
