-- ===== src/Submission/Lookup.antt =====
-- `GET /v1/runs/{run_id}` and tenants.
use claude_struct.Prelude.{
  ◌≡◌, ◌≢◌, sym, Bool, true, Bool-cases, Option-cases, inl, inr, String, Option, none, some, List,
  [], ◌∷◌, ◌==◌, ==_iff, str_eq, eq_iff, In, find?, arith,
}
use claude_struct.Models.{Run, Db}
use claude_struct.Submission.{ok, err, not_found, row, get_run, from_log, from_db}
use claude_struct.Auth.{Principal}

find?-In : (p : Run → Bool) (xs : List Run) (r : Run) → find? p xs ≡ some r → In r xs × (p r ≡ true)
find?-In p [] r h = cc
find?-In p (x ∷ xs) r h = elim (Bool-cases (p x)) [
  | inl e ↦ let q : x ≡ r = ground (arith, rw e at h) in (inl (sym q), rw (← q) e)
  | inr e ↦ let (i, k) = find?-In p xs r (rw e at h) in (inr i, k)
]

module _ {Summary : Type 0} (summary_run_id : Summary → String) (db : Db) (logs : List Summary)
    (p : Principal) (run_id : String) where
  from_log-row : (o : Option Summary) (r : Run) → from_log summary_run_id o ≡ ok (row r) → ⊥
  from_log-row none r h = cc
  from_log-row (some x) r h = cc

  own_row :
      (x r : Run) (o : Option Run)
      → o ≡ some x
      → from_db summary_run_id p.org_id run_id logs o ≡ ok (row r)
      → (x ≡ r) × (x.org_id ≡ p.org_id)
  own_row x r o e h = elim (Bool-cases (x.org_id == p.org_id)) [
    | inl t ↦ let q : x ≡ r = cc (rw (e, t) at h) in (q, (==_iff x.org_id p.org_id).0 t)
    | inr n ↦ absurd (cc (rw (e, n) at h))
  ]

  -- A row that is returned is a row of the table, has the id that was asked for, and belongs to
  -- the caller's org.
  pub get_run_row :
      (r : Run)
      → get_run summary_run_id db logs p run_id ≡ ok (row r)
      → In r db.runs × (r.run_id ≡ run_id) × (r.org_id ≡ p.org_id)
  unfolding get_run
  get_run_row r h = elim (Option-cases (find? (λ x. str_eq x.run_id run_id) db.runs)) [
    | inl e ↦
        absurd (from_log-row (find? (λ s. str_eq (summary_run_id s) run_id) logs) r (rw e at h))
    | inr (x, e) ↦
        let (i, k) = find?-In (λ x. str_eq x.run_id run_id) db.runs x e in
        let (q, o) = own_row x r (find? (λ x. str_eq x.run_id run_id) db.runs) e h in
        (rw (← q) i, rw (← q) ((eq_iff x.run_id run_id).0 k), rw (← q) o)
  ]

  -- Where the row with the id is another org's, the answer is 404, whatever the log files hold.
  pub get_run_other_org :
      (r : Run)
      → find? (λ x. str_eq x.run_id run_id) db.runs ≡ some r
      → r.org_id ≢ p.org_id
      → get_run summary_run_id db logs p run_id ≡ err not_found
  unfolding get_run
  get_run_other_org r e ne = rw e (ground arith)
