-- ===== src/Submission/Keys.antt =====
-- The idempotency keys of the runs, in src/claudestruct/server/routers/runs.py.
use claude_struct.Prelude.{
  ℕ, ◌≤◌, ◌≡◌, refl, ap, Bool, true, false, ◌&&◌, Bool-cases, inl, inr, String, Option, none, some,
  List, [], ◌∷◌, ◌++◌, ◌==◌, eq_iff, arith, count_if, count_if-append, any,
}
use claude_struct.Models.{Run, Db}
use claude_struct.Audit.{Codec}
use claude_struct.Submission.{
  Server, Reply, ok, err, enforce_token_cap, key_is, has_key, violates_unique, Call, new_run,
  normalised_key, after_conflict, insert_or_race, lookup_or_insert, after_cap, CreateRunRequest,
  create_run,
}
use claude_struct.Submission.Cap.{runs-enforce_token_cap}
use claude_struct.Auth.{Principal}

-- The UNIQUE constraint on org and key.
pub record HasUniqueKeys (runs : List Run) : Type 0 where
  pub at : (org : ℕ) (k : String) → count_if (has_key org k) runs ≤ 1

none_then_zero {ℓ} :
    {A : Type ℓ} (p : A → Bool) (xs : List A) → any p xs ≡ false → count_if p xs ≡ 0
none_then_zero p [] h = refl
none_then_zero p (x ∷ xs) h = ground (arith, none_then_zero p xs)

and_right : (a b : Bool) → (a && b) ≡ true → b ≡ true
and_right a b h = ground arith

key_is-some : (k : String) (o : Option String) → key_is k o ≡ true → o ≡ some k
key_is-some k none h = cc
key_is-some k (some j) h = ap some ((eq_iff j k).0 h)

pub key_of_has_key :
    (org : ℕ) (k : String) (r : Run)
    → has_key org k r ≡ true
    → (r.org_id ≡ org) × (r.idempotency_key ≡ some k)
unfolding has_key
key_of_has_key org k r h = (
  ground arith,
  key_is-some k r.idempotency_key (and_right (r.org_id == org) (key_is k r.idempotency_key) h),
)

pub free_of_key :
    (r : Run) (runs : List Run) (k : String)
    → r.idempotency_key ≡ some k
    → violates_unique r runs ≡ false
    → any (has_key r.org_id k) runs ≡ false
unfolding violates_unique
free_of_key r runs k e h = ground arith

-- A row that violates no constraint keeps the keys unique.
insert-HasUniqueKeys :
    (r : Run) (runs : List Run)
    → violates_unique r runs ≡ false
    → HasUniqueKeys runs
    → HasUniqueKeys (runs ++ r ∷ [])
unfolding violates_unique
insert-HasUniqueKeys r runs h u = record {
  at = λ org k.
      rw (count_if-append (has_key org k) runs (r ∷ [])) (elim (Bool-cases (has_key org k r)) [
        | inr no_key ↦ rw no_key (omega (arith, u.at org k))
        | inl keyed ↦
            let (o, j) = key_of_has_key org k r keyed in
            rw keyed (
              omega
                (arith, none_then_zero (has_key org k) runs (rw o at (free_of_key r runs k j h))))
      ]);
}

module _ {Payload : Type 0} (c : Codec Payload) (call : Call) (p : Principal)
    (body : CreateRunRequest Payload) where
  -- Where no org has two runs with one idempotency key, and the other sessions' writes keep it so,
  -- `create_run` keeps it so, whatever the cap, the header and the request are.
  pub create_run-HasUniqueKeys :
      (header : Option String) (s : Server)
      → ((d : Db) → HasUniqueKeys d.runs → HasUniqueKeys (call.others d).runs)
      → HasUniqueKeys s.db.runs
      → HasUniqueKeys (create_run c call p body header s).1.db.runs
  unfolding create_run
  create_run-HasUniqueKeys header s keep_unique u =
      go (enforce_token_cap s.db p.org_id call.now) refl
    where
      conflict :
          (s' : Server) (o : Option Run)
          → HasUniqueKeys s'.db.runs
          → HasUniqueKeys (after_conflict c s' o).1.db.runs
      conflict s' none v = v
      conflict s' (some r) v = v

      insert :
          (session : Db)
          → HasUniqueKeys session.runs
          → HasUniqueKeys (insert_or_race c call p body (normalised_key header) s session).1.db.runs
      insert session v =
          elim (Bool-cases (
            violates_unique (new_run call p body.request (normalised_key header))
              (call.others session).runs)) [
                | inl clash ↦ rw clash (conflict _ _ (keep_unique s.db u))
                | inr free ↦ rw free (insert-HasUniqueKeys _ _ free (keep_unique session v))
              ]

      found :
          (session : Db) (o : Option Run)
          → HasUniqueKeys session.runs
          → HasUniqueKeys
              (lookup_or_insert c call p body (normalised_key header) s session o).1.db.runs
      found session none v = insert session v
      found session (some r) v = u

      go :
          (r : Reply Db)
          → enforce_token_cap s.db p.org_id call.now ≡ r
          → HasUniqueKeys (after_cap c call p body (normalised_key header) s r).1.db.runs
      go (err e) h = u
      go (ok session) h =
          found session _ (rw (runs-enforce_token_cap s.db session p.org_id call.now h) u)
