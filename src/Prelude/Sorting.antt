-- ===== src/Prelude/Sorting.antt =====
-- Stable insertion sorts by a numeric key, upwards and downwards: Python's `list.sort(key=…)` and
-- SQL's `ORDER BY` with ties in table order.
use Prim.Native.Nat.{ℕ, ◌≤◌, ◌<◌}
use mathlib.Core.Path.{◌≡◌, refl, ap}
use mathlib.Core.Bool.{Bool}
use mathlib.Core.Logic.{inl, inr}
use mathlib.Core.List.{List, [], ◌∷◌, ◌++◌, map}
use native.Mathlib.Omega.{arith}
use claude_struct.Prelude.Tests.{leb, if◌then◌else◌, Bool-cases, leb→le, le→leb}
use claude_struct.Prelude.Lists.{All, In, count_if}

module _ {A : Type 0} (key : A → ℕ) where
  unfoldable pub insert_up : A → List A → List A
  insert_up x [] = x ∷ []
  insert_up x (y ∷ ys) = if leb (key x) (key y) then x ∷ y ∷ ys else y ∷ insert_up x ys

  unfoldable pub sort_up : List A → List A
  unfolding insert_up
  sort_up [] = []
  sort_up (x ∷ xs) = insert_up x (sort_up xs)

  unfoldable pub insert_down : A → List A → List A
  insert_down x [] = x ∷ []
  insert_down x (y ∷ ys) = if leb (key y) (key x) then x ∷ y ∷ ys else y ∷ insert_down x ys

  unfoldable pub sort_down : List A → List A
  unfolding insert_down
  sort_down [] = []
  sort_down (x ∷ xs) = insert_down x (sort_down xs)

  -- Every element's key is at least that of the elements before it.
  abbrev pub IsAscending : List A → Type 0
  IsAscending [] = Unit {0}
  IsAscending (x ∷ xs) = All (λ y. key x ≤ key y) xs × IsAscending xs

  All-insert_up : (P : A → Type 0) (x : A) (ys : List A) → P x → All P ys → All P (insert_up x ys)
  unfolding insert_up
  All-insert_up P x [] px h = (px, tt)
  All-insert_up P x (y ∷ ys) px h = elim (Bool-cases (leb (key x) (key y))) [
    | inl e ↦ rw e (px, h)
    | inr e ↦ rw e (h.0, All-insert_up P x ys px h.1)
  ]

  pub All-sort_up : (P : A → Type 0) (xs : List A) → All P xs → All P (sort_up xs)
  unfolding sort_up
  All-sort_up P [] h = tt
  All-sort_up P (x ∷ xs) h =
      unfold insert_up in All-insert_up P x (sort_up xs) h.0 (All-sort_up P xs h.1)

  below-All :
      (x y : A) (ys : List A)
      → key x ≤ key y
      → All (λ z. key y ≤ key z) ys
      → All (λ z. key x ≤ key z) ys
  below-All x y [] h a = tt
  below-All x y (z ∷ ys) h a = let b : key y ≤ key z = a.0 in (omega arith, below-All x y ys h a.1)

  insert_up-IsAscending : (x : A) (ys : List A) → IsAscending ys → IsAscending (insert_up x ys)
  unfolding insert_up
  insert_up-IsAscending x [] h = (tt, tt)
  insert_up-IsAscending x (y ∷ ys) h = elim (Bool-cases (leb (key x) (key y))) [
    | inl e ↦ rw e ((leb→le _ _ e, below-All x y ys (leb→le _ _ e) h.0), h)
    | inr e ↦
        rw e (
          All-insert_up (λ z. key y ≤ key z) x ys (ground arith) h.0,
          insert_up-IsAscending x ys h.1,
        )
  ]

  pub sort_up-IsAscending : (xs : List A) → IsAscending (sort_up xs)
  unfolding sort_up
  sort_up-IsAscending [] = tt
  sort_up-IsAscending (x ∷ xs) = insert_up-IsAscending x (sort_up xs) (sort_up-IsAscending xs)

  count_if-insert_up :
      (p : A → Bool) (x : A) (ys : List A) → count_if p (insert_up x ys) ≡ count_if p (x ∷ ys)
  unfolding insert_up
  count_if-insert_up p x [] = refl
  count_if-insert_up p x (y ∷ ys) = ground (arith, count_if-insert_up p x ys)

  -- A sort keeps every element, as often as it occurs.
  pub count_if-sort_up : (p : A → Bool) (xs : List A) → count_if p (sort_up xs) ≡ count_if p xs
  unfolding sort_up
  count_if-sort_up p [] = refl
  count_if-sort_up p (x ∷ xs) =
      ground (arith, count_if-insert_up p x (sort_up xs), count_if-sort_up p xs)

  -- `best` is the first element of greatest key: what stands before it has a smaller key, what
  -- stands behind it no greater one.
  pub record IsFirstBest (best : A) (xs : List A) : Type 0 where
    pub before : List A
    pub behind : List A
    pub split : xs ≡ before ++ best ∷ behind
    pub smaller : All (λ y. key y < key best) before
    pub no_greater : All (λ y. key y ≤ key best) behind

  pub data Head (xs : List A) : List A → Type 0 where
    empty : xs ≡ [] → Head xs []
    first : (best : A) (rest : List A) → IsFirstBest best xs → Head xs (best ∷ rest)

  no_greater-All :
      (x b : A) (pre post : List A)
      → key b ≤ key x
      → All (λ y. key y < key b) pre
      → All (λ y. key y ≤ key b) post
      → All (λ y. key y ≤ key x) (pre ++ b ∷ post)
  no_greater-All x b [] post h lo hi = (h, widen post hi)
    where
      widen : (ys : List A) → All (λ y. key y ≤ key b) ys → All (λ y. key y ≤ key x) ys
      widen [] a = tt
      widen (y ∷ ys) a = let c : key y ≤ key b = a.0 in (omega arith, widen ys a.1)
  no_greater-All x b (y ∷ pre) post h lo hi =
      let c : key y < key b = lo.0 in (omega arith, no_greater-All x b pre post h lo.1 hi)

  Head-step : (x : A) (xs sorted : List A) → Head xs sorted → Head (x ∷ xs) (insert_down x sorted)
  unfolding insert_down
  Head-step x xs [] (empty e) =
      first x []
        (record { before = []; behind = xs; split = refl; smaller = tt; no_greater = rw e tt })
  Head-step x xs (b ∷ rest) (first _ _ f) = elim (Bool-cases (leb (key b) (key x))) [
    | inl e ↦ rw e (
        first x (b ∷ rest) (record {
          before = [];
          behind = xs;
          split = refl;
          smaller = tt;
          no_greater =
              rw f.split
                (no_greater-All x b f.before f.behind (leb→le _ _ e) f.smaller f.no_greater);
        }))
    | inr e ↦ rw e (
        first b (insert_down x rest) (record {
          before = x ∷ f.before;
          behind = f.behind;
          split = ap (◌∷◌ x) f.split;
          smaller = (ground arith, f.smaller);
          no_greater = f.no_greater;
        }))
  ]

  -- The first element after a sort downwards is the first one of greatest key.
  pub sort_down-Head : (xs : List A) → Head xs (sort_down xs)
  unfolding sort_down
  sort_down-Head [] = empty refl
  sort_down-Head (x ∷ xs) = Head-step x xs (sort_down xs) (sort_down-Head xs)

  later_first : (a x y : A) (ys : List A) → In a (x ∷ ys) → In a (x ∷ y ∷ ys)
  later_first a x y ys (inl q) = inl q
  later_first a x y ys (inr q) = inr (inr q)

  behind_first :
      (a x y : A) (ys : List A)
      → (In a (insert_up x ys) → In a (x ∷ ys))
      → In a (y ∷ insert_up x ys)
      → In a (x ∷ y ∷ ys)
  behind_first a x y ys ih (inl q) = inr (inl q)
  behind_first a x y ys ih (inr q) = later_first a x y ys (ih q)

  In-insert_up : (a x : A) (ys : List A) → In a (insert_up x ys) → In a (x ∷ ys)
  unfolding insert_up
  In-insert_up a x [] m = m
  In-insert_up a x (y ∷ ys) m = elim (Bool-cases (leb (key x) (key y))) [
    | inl e ↦ rw e at m
    | inr e ↦ behind_first a x y ys (In-insert_up a x ys) (rw e at m)
  ]

  pub In-sort_up : (a : A) (xs : List A) → In a (sort_up xs) → In a xs
  unfolding sort_up
  In-sort_up a [] m = m
  In-sort_up a (x ∷ xs) m = deeper (In-insert_up a x (sort_up xs) m) (In-sort_up a xs)
    where
      deeper : In a (x ∷ sort_up xs) → (In a (sort_up xs) → In a xs) → In a (x ∷ xs)
      deeper (inl q) ih = inl q
      deeper (inr q) ih = inr (ih q)

module _ {A : Type 0} (key : A → ℕ) where
  insert_up-In : (a x : A) (ys : List A) → In a (x ∷ ys) → In a (insert_up key x ys)
  unfolding insert_up
  insert_up-In a x [] m = m
  insert_up-In a x (y ∷ ys) m = elim (Bool-cases (leb (key x) (key y))) [
    | inl e ↦ rw e m
    | inr e ↦ rw e (moved m (insert_up-In a x ys))
  ]
    where
      moved :
          In a (x ∷ y ∷ ys)
          → (In a (x ∷ ys) → In a (insert_up key x ys))
          → In a (y ∷ insert_up key x ys)
      moved (inl q) ih = inr (ih (inl q))
      moved (inr (inl q)) ih = inl q
      moved (inr (inr q)) ih = inr (ih (inr q))

  pub sort_up-In : (a : A) (xs : List A) → In a xs → In a (sort_up key xs)
  unfolding sort_up
  sort_up-In a [] m = m
  sort_up-In a (x ∷ xs) (inl q) = insert_up-In a x (sort_up key xs) (inl q)
  sort_up-In a (x ∷ xs) (inr q) = insert_up-In a x (sort_up key xs) (inr (sort_up-In a xs q))

  insert_up-append_last :
      (x r : A) (ys : List A)
      → key x ≤ key r
      → insert_up key x (ys ++ r ∷ []) ≡ insert_up key x ys ++ r ∷ []
  unfolding insert_up
  insert_up-append_last x r [] h = rw (le→leb (key x) (key r) h)
  insert_up-append_last x r (y ∷ ys) h = elim (Bool-cases (leb (key x) (key y))) [
    | inl e ↦ rw e
    | inr e ↦ rw (e, insert_up-append_last x r ys h)
  ]

  -- A last element of greatest key stays last.
  pub sort_up-append_last :
      (xs : List A) (r : A)
      → All (λ x. key x ≤ key r) xs
      → sort_up key (xs ++ r ∷ []) ≡ sort_up key xs ++ r ∷ []
  unfolding sort_up
  sort_up-append_last [] r h = unfold insert_up in refl
  sort_up-append_last (x ∷ xs) r h =
      rw (sort_up-append_last xs r h.1) (insert_up-append_last x r (sort_up key xs) h.0)

module _ {A B : Type 0} (key : B → ℕ) (f : A → B) where
  insert_down-map :
      (x : A) (ys : List A)
      → insert_down key (f x) (map f ys) ≡ map f (insert_down (λ a. key (f a)) x ys)
  unfolding insert_down
  insert_down-map x [] = refl
  insert_down-map x (y ∷ ys) = elim (Bool-cases (leb (key (f y)) (key (f x)))) [
    | inl e ↦ rw e
    | inr e ↦ rw (e, insert_down-map x ys)
  ]

  -- Sorting by a key of the image is sorting by the key's value.
  pub sort_down-map :
      (xs : List A) → sort_down key (map f xs) ≡ map f (sort_down (λ a. key (f a)) xs)
  unfolding sort_down
  sort_down-map [] = refl
  sort_down-map (x ∷ xs) = rw (sort_down-map xs) (insert_down-map x _)
