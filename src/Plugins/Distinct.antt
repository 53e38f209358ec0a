-- ===== src/Plugins/Distinct.antt =====
-- The loop of `merge_plugins` of src/claudestruct/plugin_sdk/__init__.py that adds what is new by
-- its key.
use mathlib.Core.Path.{subst}
use mathlib.Core.List.{append-nil, append_assoc}
use claude_struct.Prelude.{
  ◌≤◌, ◌≡◌, refl, sym, ap, ◌∙◌, Bool, true, false, ◌||◌, Bool-cases, inl, inr, String, Option, none,
  some, List, [], ◌∷◌, ◌++◌, str_eq, eq_iff, if◌then◌else◌, any, find?, count_if, count_if-append,
  arith,
}
use claude_struct.Plugins.{add_new}

-- No two elements have one key.
pub record HasDistinct {A : Type 0} (key : A → String) (xs : List A) : Type 0 where
  pub at : (k : String) → count_if (λ x. str_eq (key x) k) xs ≤ 1

module _ {A : Type 0} (key : A → String) where
  -- The set of the loop holds the keys of what was added.
  pub record IsTracked (s : List A × List String) : Type 0 where
    pub distinct : HasDistinct key s.0
    pub known : (k : String) → any (str_eq k) s.1 ≡ any (λ x. str_eq (key x) k) s.0

  any-append_one : (p : A → Bool) (xs : List A) (x : A) → any p (xs ++ x ∷ []) ≡ any p xs || p x
  any-append_one p [] x = ground arith
  any-append_one p (y ∷ xs) x = ground (arith, any-append_one p xs x)

  none_counted : (p : A → Bool) (xs : List A) → any p xs ≡ false → count_if p xs ≡ 0
  none_counted p [] h = refl
  none_counted p (x ∷ xs) h = ground (arith, none_counted p xs)

  str_eq_sym : (a b : String) → str_eq a b ≡ str_eq b a
  str_eq_sym a b = ground (arith, eq_iff a b, eq_iff b a)

  find?-append :
      (p : A → Bool) (xs ys : List A)
      → find? p (xs ++ ys) ≡ (if any p xs then find? p xs else find? p ys)
  find?-append p [] ys = refl
  find?-append p (x ∷ xs) ys = ground (arith, find?-append p xs ys)

  IsTracked-add :
      (x : A) (out : List A) (seen : List String)
      → IsTracked (out, seen)
      → any (str_eq (key x)) seen ≡ false
      → IsTracked (out ++ x ∷ [], key x ∷ seen)
  IsTracked-add x out seen t new = record {
    distinct = record {
      at = λ k.
          rw (count_if-append (λ y. str_eq (key y) k) out (x ∷ []))
            (elim (Bool-cases (str_eq (key x) k)) [
              | inr e ↦ rw e (omega (arith, t.distinct.at k))
              | inl e ↦
                  let q : key x ≡ k = (eq_iff (key x) k).0 e in
                  let fresh : any (str_eq k) seen ≡ false = rw q at new in
                  rw e (
                    omega
                      (arith, none_counted (λ y. str_eq (key y) k) out (sym (t.known k) ∙ fresh)))
            ]);
    };
    known = λ k.
        ground
          (arith, t.known k, any-append_one (λ y. str_eq (key y) k) out x, str_eq_sym k (key x));
  }

  find?-skipped :
      (x : A) (xs out : List A) (seen : List String) (k : String)
      → IsTracked (out, seen)
      → any (str_eq (key x)) seen ≡ true
      → find? (λ y. str_eq (key y) k) (out ++ xs) ≡ find? (λ y. str_eq (key y) k) (out ++ x ∷ xs)
  find?-skipped x xs out seen k t old = rw (find?-append (λ y. str_eq (key y) k) out xs) (
      rw (find?-append (λ y. str_eq (key y) k) out (x ∷ xs)) (elim (Bool-cases (str_eq (key x) k)) [
        | inr e ↦ rw e refl
        | inl e ↦
            let q : key x ≡ k = (eq_iff (key x) k).0 e in
            let there : any (str_eq k) seen ≡ true = rw q at old in
            rw (sym (t.known k) ∙ there) refl
      ]))

  -- Distinct keys, and for each key the element that is first in `all`.
  abbrev pub Kept : List A → List A × List String → Type 0
  Kept all s =
      IsTracked s
      × ((k : String) → find? (λ x. str_eq (key x) k) s.0 ≡ find? (λ x. str_eq (key x) k) all)

  -- The loop keeps the keys distinct, and for each key its first element is found, of what was
  -- there and what came.
  add_new-Kept :
      (xs out : List A) (seen : List String)
      → IsTracked (out, seen)
      → Kept (out ++ xs) (add_new key xs (out, seen))
  add_new-Kept [] out seen t = (t, λ k. ap (find? (λ x. str_eq (key x) k)) (sym (append-nil out)))
  add_new-Kept (x ∷ xs) out seen t = elim (Bool-cases (any (str_eq (key x)) seen)) [
    | inl e ↦
        let (u, f) = add_new-Kept xs out seen t in
        subst
          (λ b.
            Kept (out ++ x ∷ xs)
              (add_new key xs (if b then (out, seen) else (out ++ x ∷ [], key x ∷ seen))))
          (sym e) (u, λ k. f k ∙ find?-skipped x xs out seen k t e)
    | inr e ↦
        let (u, f) =
          add_new-Kept xs (out ++ x ∷ []) (key x ∷ seen) (IsTracked-add x out seen t e) in
        subst
          (λ b.
            Kept (out ++ x ∷ xs)
              (add_new key xs (if b then (out, seen) else (out ++ x ∷ [], key x ∷ seen))))
          (sym e) (u, λ k. f k ∙ ap (find? (λ y. str_eq (key y) k)) (append_assoc out (x ∷ []) xs))
  ]

  abbrev or_else : Option A → Option A → Option A
  or_else none o = o
  or_else (some a) o = some a

  find?-or_else :
      (p : A → Bool) (xs ys : List A) → find? p (xs ++ ys) ≡ or_else (find? p xs) (find? p ys)
  find?-or_else p [] ys = refl
  find?-or_else p (x ∷ xs) ys = ground (arith, find?-or_else p xs ys)

  -- What comes on top of a collection that stands for `all` makes one that stands for both.
  pub Kept-add_new :
      (all xs : List A) (s : List A × List String)
      → Kept all s
      → Kept (all ++ xs) (add_new key xs s)
  Kept-add_new all xs s (t, f) =
      let (u, g) = add_new-Kept xs s.0 s.1 t in
      (
        u,
        λ k.
            g k
            ∙ find?-or_else (λ x. str_eq (key x) k) s.0 xs
            ∙ ap (λ o. or_else o (find? (λ x. str_eq (key x) k) xs)) (f k)
            ∙ sym (find?-or_else (λ x. str_eq (key x) k) all xs),
      )

  pub Kept-same :
      (all other : List A) (s : List A × List String) → all ≡ other → Kept all s → Kept other s
  Kept-same all other s e k = subst (λ l. Kept l s) e k

pub nothing-IsTracked : {A : Type 0} (key : A → String) → IsTracked key ([], [])
nothing-IsTracked key = record { distinct = record { at = λ k. omega arith }; known = λ k. refl }

-- The keys of a collection are distinct, and each stands for the first element of `all` with it.
pub record IsFirsts {A : Type 0} (key : A → String) (all xs : List A) : Type 0 where
  pub distinct : HasDistinct key xs
  pub found : (k : String) → find? (λ x. str_eq (key x) k) xs ≡ find? (λ x. str_eq (key x) k) all

pub Kept-IsFirsts :
    {A : Type 0} (key : A → String) (all : List A) (s : List A × List String)
    → Kept key all s
    → IsFirsts key all s.0
Kept-IsFirsts key all s (t, f) = record { distinct = t.distinct; found = f }
