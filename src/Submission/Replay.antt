-- ===== src/Submission/Replay.antt =====
-- Submitting again with the same idempotency key, in src/claudestruct/server/routers/runs.py.
use claude_struct.Prelude.{
  ℕ, ◌≡◌, refl, Bool, true, false, Bool-cases, inl, inr, String, Option, none, some, List, [], ◌∷◌,
  ◌++◌, ==_iff, eq_iff, arith, any, find?, ltb, ltb→lt, if◌then◌else◌,
}
use claude_struct.Models.{Run, Db}
use claude_struct.Audit.{Codec}
use claude_struct.Submission.{
  Server, Reply, ok, err, enforce_token_cap, has_key, violates_unique, find_keyed, Call, new_run,
  normalised_key, after_conflict, replay, insert_or_race, lookup_or_insert, after_cap,
  CreateRunRequest, CreateRunResponse, create_run, payment_required,
}
use claude_struct.Submission.Cap.{
  cap_of, used_of, runs-enforce_token_cap, enforce_token_cap_passes, capped_submit_refused,
}
use claude_struct.Billing.{get_or_default, current_period_bounds}
use claude_struct.Submission.Keys.{free_of_key}
use claude_struct.Auth.{Principal}

find?-append_new {ℓ} :
    {A : Type ℓ} (p : A → Bool) (xs : List A) (r : A)
    → any p xs ≡ false
    → p r ≡ true
    → find? p (xs ++ r ∷ []) ≡ some r
find?-append_new p [] r h k = rw k
find?-append_new p (x ∷ xs) r h k = ground (arith, find?-append_new p xs r)

own_key :
    (org : ℕ) (k : String) (r : Run)
    → r.org_id ≡ org
    → r.idempotency_key ≡ some k
    → has_key org k r ≡ true
unfolding has_key
own_key org k r o e = rw e (rw ((eq_iff k k).1 refl, (==_iff r.org_id org).1 o))

-- What an accepted submission with a key leaves behind: a run of that key is the one that was named.
abbrev Named : ℕ → String → Reply CreateRunResponse × Server → Type 0
Named org k (err e, s) = Unit {0}
Named org k (ok a, s) =
    (r : Run) × (find_keyed org (some k) s.db.runs ≡ some r) × (r.run_id ≡ a.run_id)

module _ {Payload : Type 0} (c : Codec Payload) (call : Call) (p : Principal)
    (body : CreateRunRequest Payload) (k : String) (s : Server) where
  conflict-Named :
      (s' : Server) (o : Option Run)
      → find_keyed p.org_id (some k) s'.db.runs ≡ o
      → Named p.org_id k (after_conflict c s' o)
  conflict-Named s' none e = tt
  conflict-Named s' (some r) e = (r, e, refl)

  insert-Named : (session : Db) → Named p.org_id k (insert_or_race c call p body (some k) s session)
  insert-Named session =
      let r = new_run call p body.request (some k) in
      elim (Bool-cases (violates_unique r (call.others session).runs)) [
        | inl clash ↦ rw clash (conflict-Named _ _ refl)
        | inr free ↦ rw free (
          r,
          find?-append_new (has_key p.org_id k) (call.others session).runs r
              (free_of_key r _ k refl free) (own_key p.org_id k r refl refl),
          refl,
        )
      ]

  found-Named :
      (session : Db) (o : Option Run)
      → session.runs ≡ s.db.runs
      → find_keyed p.org_id (some k) session.runs ≡ o
      → Named p.org_id k (lookup_or_insert c call p body (some k) s session o)
  found-Named session none same e = insert-Named session
  found-Named session (some r) same e = (r, rw same at e, refl)

  cap-Named :
      (a : Reply Db)
      → enforce_token_cap s.db p.org_id call.now ≡ a
      → Named p.org_id k (after_cap c call p body (some k) s a)
  cap-Named (err e) h = tt
  cap-Named (ok session) h =
      found-Named session _ (runs-enforce_token_cap s.db session p.org_id call.now h) refl

  create_run-Named :
      (header : Option String)
      → normalised_key header ≡ some k
      → Named p.org_id k (create_run c call p body header s)
  unfolding create_run
  create_run-Named header e = rw e (cap-Named _ refl)

-- A submission whose org and key an earlier run has is answered with the first such run, and
-- writes nothing, if the cap lets it pass.
replays :
    {Payload : Type 0} (c : Codec Payload) (call : Call) (p : Principal)
    (body : CreateRunRequest Payload) (header : Option String) (k : String) (s : Server) (r : Run)
    (session : Db)
    → normalised_key header ≡ some k
    → find_keyed p.org_id (some k) s.db.runs ≡ some r
    → enforce_token_cap s.db p.org_id call.now ≡ ok session
    → create_run c call p body header s ≡ (ok (replay "idempotent replay" r), s)
unfolding create_run
replays c call p body header k s r session e f h =
    rw (e, h, runs-enforce_token_cap s.db session p.org_id call.now h, f)

answered :
    (org : ℕ) (k : String) (result : Reply CreateRunResponse × Server) (a : CreateRunResponse)
    → Named org k result
    → result.0 ≡ ok a
    → (r : Run) × (find_keyed org (some k) result.1.db.runs ≡ some r) × (r.run_id ≡ a.run_id)
answered org k (err e, s) a n h = cc
answered org k (ok b, s) a (r, f, i) h = (r, f, ground arith)

-- When a submission with a key has been accepted, in whichever way, then the same caller's next
-- submission with that key that passes the cap names the same run, whatever its body, and leaves
-- the database and the audit log as they are.
pub create_run_idempotent :
    {Payload : Type 0} (c : Codec Payload) (call again : Call) (p : Principal)
    (body other_body : CreateRunRequest Payload) (header : Option String) (k : String) (s : Server)
    (a : CreateRunResponse) (session : Db)
    → normalised_key header ≡ some k
    → (create_run c call p body header s).0 ≡ ok a
    → enforce_token_cap (create_run c call p body header s).1.db p.org_id again.now ≡ ok session
    → (r : Run) × (create_run c again p other_body header (create_run c call p body header s).1
        ≡ (ok (replay "idempotent replay" r), (create_run c call p body header s).1))
      × (r.run_id ≡ a.run_id)
create_run_idempotent c call again p body other_body header k s a session e h cap =
    let (r, f, i) = answered p.org_id k _ a (create_run-Named c call p body k s header e) h in
    (r, replays c again p other_body header k _ r session e f cap, i)

-- A submission with a key whose run is there, at a capped tier: the usage decides.
retry :
    {Payload : Type 0} (c : Codec Payload) (call : Call) (p : Principal)
    (body : CreateRunRequest Payload) (header : Option String) (k : String) (s : Server) (r : Run)
    (cap : ℕ)
    → normalised_key header ≡ some k
    → find_keyed p.org_id (some k) s.db.runs ≡ some r
    → cap_of s.db p.org_id ≡ some cap
    → create_run c call p body header s ≡ (
      (if ltb (used_of s.db p.org_id call.now) cap
          then ok (replay "idempotent replay" r)
          else err (
              payment_required (record {
                used_tokens = used_of s.db p.org_id call.now;
                cap_tokens = cap;
                period_end = (current_period_bounds (get_or_default s.db p.org_id).0 call.now).1;
                tier = (get_or_default s.db p.org_id).0.tier;
              }))),
      s,
    )
retry c call p body header k s r cap e f capped =
    elim (Bool-cases (ltb (used_of s.db p.org_id call.now) cap)) [
      | inl low ↦ rw low (
          replays c call p body header k s r (get_or_default s.db p.org_id).1 e f
            (enforce_token_cap_passes s.db p.org_id call.now (inr (cap, capped, ltb→lt _ _ low))))
      | inr high ↦ rw high (capped_submit_refused c call p body header s cap capped (ground arith))
    ]

-- When a submission with a key has been accepted, in whichever way, and the org's tier then has a
-- token cap, the database has the run that was named under that org and key; the same caller's next
-- submission with the key is answered with that run if the org has used fewer tokens than the cap in
-- its period, and else is refused with 402, with the usage, the cap, the end of the period and the
-- tier; and either way nothing is written.
pub capped_retry :
    {Payload : Type 0} (c : Codec Payload) (call again : Call) (p : Principal)
    (body other_body : CreateRunRequest Payload) (header : Option String) (k : String)
    (s after : Server) (a : CreateRunResponse) (cap : ℕ)
    → normalised_key header ≡ some k
    → create_run c call p body header s ≡ (ok a, after)
    → cap_of after.db p.org_id ≡ some cap
    → (r : Run) × (find_keyed p.org_id (some k) after.db.runs ≡ some r)
      × (r.run_id ≡ a.run_id)
      × (create_run c again p other_body header after ≡ (
        (if ltb (used_of after.db p.org_id again.now) cap
            then ok (replay "idempotent replay" r)
            else err (
                payment_required (record {
                  used_tokens = used_of after.db p.org_id again.now;
                  cap_tokens = cap;
                  period_end =
                      (current_period_bounds (get_or_default after.db p.org_id).0 again.now).1;
                  tier = (get_or_default after.db p.org_id).0.tier;
                }))),
        after,
      ))
capped_retry c call again p body other_body header k s after a cap e h capped =
    let (r, f, i) =
      answered p.org_id k (ok a, after) a (rw h at (create_run-Named c call p body k s header e))
        refl in
    (r, f, i, retry c again p other_body header k after r cap e f capped)
