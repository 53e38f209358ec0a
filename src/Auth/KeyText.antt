-- ===== src/Auth/KeyText.antt =====
-- The text of a key: `generate_key` and `parse_key` of src/claudestruct/server/auth.py.
use Prim.Native.Char.{code}
use text.Mathlib.TextLemmas.{nil-append, cons-append}
use claude_struct.Prelude.{
  ◌≡◌, ◌≢◌, refl, ap, ◌∙◌, Bool, false, ◌||◌, Bool-cases, inl, inr, String, text_append, some, ◌==◌,
  ==_iff, str_eq, eq_iff,
}
use claude_struct.Auth.{drop_prefix, split_underscore, parse_key, generate_key}

-- `secrets.token_hex` gives hex digits; what matters is that there are some and no underscore.
abbrev pub has_underscore : String → Bool
has_underscore String.[] = false
has_underscore (String.◌∷◌ c s) = (code c == 95) || has_underscore s

pub record IsHex (s : String) : Type 0 where
  pub not_empty : s ≢ ""
  pub no_underscore : has_underscore s ≡ false

drop_prefix-append : (p s : String) → drop_prefix p (text_append p s) ≡ some s
unfolding drop_prefix
drop_prefix-append String.[] s = rw (nil-append s) refl
drop_prefix-append (String.◌∷◌ c p) s =
    rw (cons-append c p s) (rw ((==_iff (code c) (code c)).1 refl) (drop_prefix-append p s))

underscore-append : (b : String) → text_append "_" b ≡ String.◌∷◌ "_" b
underscore-append b = cons-append "_" "" b ∙ ap (String.◌∷◌ "_") (nil-append b)

split_underscore-append :
    (a b : String)
    → has_underscore a ≡ false
    → split_underscore (text_append a (text_append "_" b)) ≡ some (a, b)
unfolding split_underscore
split_underscore-append String.[] b h =
    rw (nil-append (text_append "_" b)) (rw (underscore-append b) refl)
split_underscore-append (String.◌∷◌ c a) b h = elim (Bool-cases (code c == 95)) [
  | inl e ↦ cc (rw e at h)
  | inr e ↦
      rw (cons-append c a (text_append "_" b))
        (rw e (rw (split_underscore-append a b (rw e at h)) refl))
]

unequal : (s : String) → s ≢ "" → str_eq s "" ≡ false
unequal s ne = elim (Bool-cases (str_eq s "")) [
  | inl e ↦ absurd (ne ((eq_iff s "").0 e))
  | inr e ↦ e
]

-- A key that is made of two texts in hex, not empty and without an underscore, is read back as
-- those two.
pub parse_key-generate_key :
    (key_id secret : String)
    → IsHex key_id
    → IsHex secret
    → parse_key (generate_key key_id secret) ≡ some (key_id, secret)
unfolding parse_key generate_key
parse_key-generate_key key_id secret k s =
    rw (drop_prefix-append "ck_" (text_append key_id (text_append "_" secret))) (
      rw (split_underscore-append key_id secret k.no_underscore)
        (rw (unequal key_id k.not_empty) (rw (unequal secret s.not_empty) refl)))
