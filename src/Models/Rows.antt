-- ===== src/Models/Rows.antt =====
-- Writing a row of src/claudestruct/server/models.py back.
use claude_struct.Prelude.{
  ℕ, ◌+◌, ◌≡◌, ◌≢◌, refl, sym, ap, ◌∙◌, Bool, inl, inr, List, [], ◌∷◌, ◌==◌, ==_iff, Bool-cases,
  if◌then◌else◌, In, All, All-In, arith, count_if,
}
use claude_struct.Models.{Run, put_run}

-- Primary keys are unique.
abbrev pub HasUniqueIds : List Run → Type 0
HasUniqueIds [] = Unit {0}
HasUniqueIds (x ∷ xs) = All (λ y. y.id ≢ x.id) xs × HasUniqueIds xs

put_run-other : (r : Run) (xs : List Run) → All (λ y. y.id ≢ r.id) xs → put_run r xs ≡ xs
unfolding put_run
put_run-other r [] h = refl
put_run-other r (x ∷ xs) h = ground (arith, put_run-other r xs h.1)

abbrev one : Bool → ℕ
one b = if b then 1 else 0

-- Where ids are unique, writing back a row moves it, and it alone, from one count to another.
pub count_if-put_run :
    (p : Run → Bool) (old new : Run) (xs : List Run)
    → HasUniqueIds xs
    → In old xs
    → new.id ≡ old.id
    → count_if p (put_run new xs) + one (p old) ≡ count_if p xs + one (p new)
unfolding put_run
count_if-put_run p old new [] u m s = elim m [ ]
count_if-put_run p old new (x ∷ xs) u (inl e) s =
    rw
      (e, put_run-other new xs (rw (s, e) u.0), (==_iff x.id new.id).1 (sym (s ∙ ap (λ r. r.id) e)))
      (ground arith)
count_if-put_run p old new (x ∷ xs) u (inr m) s =
    let ne : old.id ≢ x.id = All-In (λ y. y.id ≢ x.id) old xs u.0 m in
    ground (arith, count_if-put_run p old new xs u.1 m s)

-- Of two writes of one row the later stays.
pub put_run-put_run :
    (a b : Run) (xs : List Run) → a.id ≡ b.id → put_run a (put_run b xs) ≡ put_run a xs
unfolding put_run
put_run-put_run a b [] e = refl
put_run-put_run a b (x ∷ xs) e = ground (arith, put_run-put_run a b xs e)

ids_stay :
    (r : Run) (n : ℕ) (xs : List Run) → All (λ y. y.id ≢ n) xs → All (λ y. y.id ≢ n) (put_run r xs)
unfolding put_run
ids_stay r n [] h = tt
ids_stay r n (x ∷ xs) h = (ground (arith, h.0), ids_stay r n xs h.1)

pub put_run-HasUniqueIds : (r : Run) (xs : List Run) → HasUniqueIds xs → HasUniqueIds (put_run r xs)
unfolding put_run
put_run-HasUniqueIds r [] u = tt
put_run-HasUniqueIds r (x ∷ xs) u = (
  elim (Bool-cases (x.id == r.id)) [
    | inl e ↦ rw e (rw ((==_iff x.id r.id).0 e) at (ids_stay r x.id xs u.0))
    | inr e ↦ rw e (ids_stay r x.id xs u.0)
  ],
  put_run-HasUniqueIds r xs u.1,
)
