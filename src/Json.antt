-- ===== src/Json.antt =====
-- JSON as Python reads it, and what its values answer to `get`, `or`, `in` and `str`. The receivers and
-- readers of src/claudestruct/ that take JSON are modelled over it.
use claude_struct.Prelude.{
  ℕ, Bool, true, false, not, ◌||◌, ◌&&◌, String, Option, none, some, ◌==◌, str_eq, if◌then◌else◌,
}

-- `int` is a natural number; `number` is any other number, by its text, and never zero.
mutual
  pub data Json : Type 0 where
    null : Json
    bool : Bool → Json
    int : ℕ → Json
    number : String → Json
    str : String → Json
    arr : Items → Json
    obj : Fields → Json

  pub data Items : Type 0 where
    nil : Items
    cons : Json → Items → Items

  pub data Fields : Type 0 where
    end : Fields
    field : String → Json → Fields → Fields

-- A value, or an exception: an `AttributeError` or a `TypeError`.
pub data Got (A : Type 0) : Type 0 where
  got : A → Got A
  raised : Got A

infixl 5 ◌>>=◌
abbrev pub ◌>>=◌ : {A B : Type 0} → Got A → (A → Got B) → Got B
got a >>= f = f a
raised >>= f = raised

abbrev pub truthy : Json → Bool
truthy null = false
truthy (bool b) = b
truthy (int n) = not (n == 0)
truthy (number s) = true
truthy (str s) = not (str_eq s "")
truthy (arr nil) = false
truthy (arr (cons _ _)) = true
truthy (obj end) = false
truthy (obj (field _ _ _)) = true

-- `a or b`.
abbrev pub or_else : Json → Json → Json
or_else a b = if truthy a then a else b

-- The value of a key; the parser kept the last of equal keys.
unfoldable pub lookup : String → Fields → Option Json
lookup k end = none
lookup k (field j v fs) = if str_eq j k then some v else lookup k fs

-- `d.get(k)` and `d.get(k, default)`.
abbrev pub get_default : Json → String → Json → Got Json
get_default d k (obj fs) = got (elim (lookup k fs) [ none ↦ d | some v ↦ v ])
get_default d k _ = raised

abbrev pub get : String → Json → Got Json
get k v = get_default null k v

-- `(d.get(k) or {})`.
abbrev pub get_or_empty : String → Json → Got Json
get_or_empty k d = do v ← get k d; got (or_else v (obj end))

unfoldable pub starts_with : String → String → Bool
starts_with String.[] s = true
starts_with (String.◌∷◌ c p) String.[] = false
starts_with (String.◌∷◌ c p) (String.◌∷◌ d s) =
    str_eq (String.◌∷◌ c String.[]) (String.◌∷◌ d String.[]) && starts_with p s

-- `sub in text`.
unfoldable pub contains : String → String → Bool
unfolding starts_with
contains sub String.[] = starts_with sub String.[]
contains sub (String.◌∷◌ c s) = starts_with sub (String.◌∷◌ c s) || contains sub s

unfoldable pub member : String → Items → Bool
member k nil = false
member k (cons (str s) vs) = str_eq s k || member k vs
member k (cons _ vs) = member k vs

-- `k in d` for a text `k`.
abbrev pub has_key : String → Json → Got Bool
has_key k (obj fs) = got (elim (lookup k fs) [ none ↦ false | some _ ↦ true ])
has_key k (arr vs) = got (member k vs)
has_key k (str s) = got (contains k s)
has_key k _ = raised

-- `isinstance(v, int)`, with the number; booleans are integers. `isinstance(v, str)`.
abbrev pub as_int : Json → Option ℕ
as_int (int n) = some n
as_int (bool b) = some (if b then 1 else 0)
as_int _ = none

abbrev pub as_str : Json → Option String
as_str (str s) = some s
as_str _ = none

-- `s[:n]` of a text.
unfoldable pub slice : ℕ → String → String
slice n String.[] = ""
slice ℕ.zero (String.◌∷◌ c s) = ""
slice (ℕ.suc n) (String.◌∷◌ c s) = String.◌∷◌ c (slice n s)

unfoldable pub slice_items : ℕ → Items → Items
slice_items n nil = nil
slice_items ℕ.zero (cons v vs) = nil
slice_items (ℕ.suc n) (cons v vs) = cons v (slice_items n vs)

-- `v[:n]`.
abbrev pub sliced : ℕ → Json → Got Json
sliced n (str s) = got (str (slice n s))
sliced n (arr vs) = got (arr (slice_items n vs))
sliced n _ = raised
