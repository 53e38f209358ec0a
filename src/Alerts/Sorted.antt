-- ===== src/Alerts/Sorted.antt =====
-- The sorting of findings in src/claudestruct/server/alerts.py, and membership in lists of them.
use claude_struct.Prelude.{◌≡◌, Bool, true, false, Bool-cases, inl, inr, List, [], ◌∷◌, ◌++◌, In}
use claude_struct.Alerts.{insert_by, sort_by}

pub In-left : {A : Type 0} (x : A) (xs ys : List A) → In x xs → In x (xs ++ ys)
In-left x [] ys m = absurd m
In-left x (y ∷ xs) ys (inl q) = inl q
In-left x (y ∷ xs) ys (inr m) = inr (In-left x xs ys m)

pub In-right : {A : Type 0} (x : A) (xs ys : List A) → In x ys → In x (xs ++ ys)
In-right x [] ys m = m
In-right x (y ∷ xs) ys m = inr (In-right x xs ys m)

module _ {A : Type 0} (at_least : A → A → Bool) where
  In-insert_by : (a x : A) (ys : List A) → In a (insert_by at_least x ys) → In a (x ∷ ys)
  unfolding insert_by
  In-insert_by a x [] m = m
  In-insert_by a x (y ∷ ys) m = elim (Bool-cases (at_least x y)) [
    | inl e ↦ rw e at m
    | inr e ↦ behind (In-insert_by a x ys) (rw e at m)
  ]
    where
      behind :
          (In a (insert_by at_least x ys) → In a (x ∷ ys))
          → In a (y ∷ insert_by at_least x ys)
          → In a (x ∷ y ∷ ys)
      behind ih (inl q) = inr (inl q)
      behind ih (inr i) = elim (ih i) [ inl q ↦ inl q | inr j ↦ inr (inr j) ]

  pub In-sort_by : (a : A) (xs : List A) → In a (sort_by at_least xs) → In a xs
  unfolding sort_by
  In-sort_by a [] m = m
  In-sort_by a (x ∷ xs) m = elim (In-insert_by a x (sort_by at_least xs) m) [
    | inl q ↦ inl q
    | inr i ↦ inr (In-sort_by a xs i)
  ]

  insert_by-In : (a x : A) (ys : List A) → In a (x ∷ ys) → In a (insert_by at_least x ys)
  unfolding insert_by
  insert_by-In a x [] m = m
  insert_by-In a x (y ∷ ys) m = elim (Bool-cases (at_least x y)) [
    | inl e ↦ rw e m
    | inr e ↦ rw e (elim m [
      | inl q ↦ inr (insert_by-In a x ys (inl q))
      | inr n ↦ elim n [ inl q ↦ inl q | inr deep ↦ inr (insert_by-In a x ys (inr deep)) ]
    ])
  ]

  pub sort_by-In : (a : A) (xs : List A) → In a xs → In a (sort_by at_least xs)
  unfolding sort_by
  sort_by-In a [] m = m
  sort_by-In a (x ∷ xs) (inl q) = insert_by-In a x (sort_by at_least xs) (inl q)
  sort_by-In a (x ∷ xs) (inr m) = insert_by-In a x (sort_by at_least xs) (inr (sort_by-In a xs m))

-- Each member stands in a relation to the next.
abbrev pub InOrder : {A : Type 0} → (A → A → Type 0) → List A → Type 0
InOrder R [] = Unit {0}
InOrder R (x ∷ []) = Unit {0}
InOrder R (x ∷ y ∷ ys) = R x y × InOrder R (y ∷ ys)

-- Sorting by a test that decides a relation of every two members, one way or the other.
module _ {A : Type 0} (at_least : A → A → Bool) (R : A → A → Type 0)
    (yes_to : (x y : A) → at_least x y ≡ true → R x y)
    (no_to : (x y : A) → at_least x y ≡ false → R y x) where
  insert_after :
      (x y : A) (ys : List A)
      → at_least x y ≡ false
      → InOrder R (y ∷ ys)
      → InOrder R (insert_by at_least x ys)
      → InOrder R (y ∷ insert_by at_least x ys)
  unfolding insert_by
  insert_after x y [] e h k = (no_to x y e, tt)
  insert_after x y (z ∷ ys) e h k = elim (Bool-cases (at_least x z)) [
    | inl f ↦ rw f (no_to x y e, rw f at k)
    | inr f ↦ rw f (h.0, rw f at k)
  ]

  tail_order : (x : A) (xs : List A) → InOrder R (x ∷ xs) → InOrder R xs
  tail_order x [] h = tt
  tail_order x (y ∷ ys) h = h.1

  insert_by-InOrder : (x : A) (ys : List A) → InOrder R ys → InOrder R (insert_by at_least x ys)
  unfolding insert_by
  insert_by-InOrder x [] h = tt
  insert_by-InOrder x (y ∷ ys) h =
      let rest = insert_by-InOrder x ys (tail_order y ys h) in
      elim (Bool-cases (at_least x y)) [
        | inl e ↦ rw e (yes_to x y e, h)
        | inr e ↦ rw e (insert_after x y ys e h rest)
      ]

  pub sort_by-InOrder : (xs : List A) → InOrder R (sort_by at_least xs)
  unfolding sort_by
  sort_by-InOrder [] = tt
  sort_by-InOrder (x ∷ xs) = insert_by-InOrder x (sort_by at_least xs) (sort_by-InOrder xs)
