-- ===== src/Submission.antt =====
-- src/claudestruct/server/routers/runs.py: the token cap, `POST /v1/runs` with its idempotency key, and
-- `GET /v1/runs/{run_id}`.
pub mod Keys
pub mod Cap
pub mod Replay
pub mod Lookup
use Prim.Native.Char.{code}
use claude_struct.Prelude.{
  ℕ, ◌+◌, Bool, true, false, ◌&&◌, ◌||◌, String, Option, none, some, List, [], ◌∷◌, ◌++◌, ◌==◌, leb,
  str_eq, ltb, if◌then◌else◌, any, find?,
}
use claude_struct.Calendar.{DateTime}
use claude_struct.Models.{
  Run, RunRequest, RunStatus, queued, Subscription, Db, no_outcome, no_github,
}
use claude_struct.Billing.{
  get_or_default, tier_token_cap, current_period_token_usage, current_period_bounds,
}
use claude_struct.Audit.{Codec, AuditEntry, Event, record_event}
use claude_struct.Auth.{Principal}

-- The database and the audit log.
pub record Server : Type 0 where
  pub db : Db
  pub audit : List AuditEntry

-- `TokenCapExceededResponse`, without its message.
pub record CapExceeded : Type 0 where
  pub used_tokens : ℕ
  pub cap_tokens : ℕ
  pub period_end : DateTime
  pub tier : String

-- 402, 404, and the `IntegrityError` that is raised again (a 500).
pub data HttpError : Type 0 where
  payment_required : CapExceeded → HttpError
  not_found : HttpError
  integrity_error : HttpError

pub data Reply (A : Type 0) : Type 0 where
  ok : A → Reply A
  err : HttpError → Reply A

abbrev cap_test : Subscription → DateTime → ℕ × Db → ℕ → Reply Db
cap_test sub now (used, db) cap =
    if ltb used cap
    then ok db
    else err (
        payment_required (record {
          used_tokens = used;
          cap_tokens = cap;
          period_end = (current_period_bounds sub now).1;
          tier = sub.tier;
        }))

abbrev cap_checked : Subscription × Db → ℕ → DateTime → Option ℕ → Reply Db
cap_checked (sub, db) org now none = ok db
cap_checked (sub, db) org now (some cap) =
    cap_test sub now (current_period_token_usage db org now) cap

-- `_enforce_token_cap`: the session's database, or the refusal.
unfoldable pub enforce_token_cap : Db → ℕ → DateTime → Reply Db
enforce_token_cap db org now =
    let found = get_or_default db org in
    cap_checked found org now (tier_token_cap (some found.0.tier))

-- The characters that `str.strip` removes.
unfoldable pub is_space : ℕ → Bool
is_space c =
    (leb 9 c && leb c 13)
    || ((leb 28 c && leb c 32)
        || ((c == 0x85)
            || ((c == 0xa0)
                || ((c == 0x1680)
                    || ((leb 0x2000 c && leb c 0x200a)
                        || ((leb 0x2028 c && leb c 0x2029)
                            || ((c == 0x202f) || ((c == 0x205f) || (c == 0x3000)))))))))

unfoldable pub lstrip : String → String
unfolding is_space
lstrip String.[] = ""
lstrip (String.◌∷◌ c s) = let rest = lstrip s in if is_space (code c) then rest else String.◌∷◌ c s

unfoldable pub rstrip : String → String
unfolding is_space
rstrip String.[] = ""
rstrip (String.◌∷◌ c s) =
    let rest = rstrip s in if str_eq rest "" && is_space (code c) then "" else String.◌∷◌ c rest

unfoldable pub strip : String → String
unfolding lstrip rstrip
strip s = rstrip (lstrip s)

-- The key that is looked up and stored: `none` for a missing or blank header.
unfoldable pub normalised_key : Option String → Option String
normalised_key none = none
normalised_key (some k) = if str_eq (strip k) "" then none else some (strip k)

-- `CreateRunRequest`; `paths_json` is `json.dumps(body.paths)`, or `none` for no paths.
pub record CreateRunRequest (Payload : Type 0) : Type 0 where
  pub request : RunRequest
  pub audit_payload : Payload

pub record CreateRunResponse : Type 0 where
  pub run_id : String
  pub status : RunStatus
  pub note : Option String

abbrev pub key_is : String → Option String → Bool
key_is k none = false
key_is k (some j) = str_eq j k

-- The row's org and key are those given.
unfoldable pub has_key : ℕ → String → Run → Bool
has_key org k r = (r.org_id == org) && key_is k r.idempotency_key

abbrev pub find_keyed : ℕ → Option String → List Run → Option Run
find_keyed org none runs = none
find_keyed org (some k) runs = find? (has_key org k) runs

-- The two UNIQUE constraints of the table, against a new row.
unfoldable pub violates_unique : Run → List Run → Bool
violates_unique r runs =
    any (λ x. str_eq x.run_id r.run_id) runs
    || (elim r.idempotency_key [ none ↦ false | some k ↦ any (has_key r.org_id k) runs ])

-- What differs from call to call: the caller's clock, the fresh run id, the primary key that the
-- database gives, and what other sessions commit between the lookup and the insert.
pub record Call : Type 0 where
  pub now : DateTime
  pub fresh_run_id : String
  pub fresh_id : ℕ
  pub others : Db → Db

abbrev pub new_run : Call → Principal → RunRequest → Option String → Run
new_run call p body key = record {
  id = call.fresh_id;
  run_id = call.fresh_run_id;
  org_id = p.org_id;
  user_id = p.user_id;
  status = queued;
  idempotency_key = key;
  request = body;
  outcome = no_outcome;
  error = none;
  created_at = call.now;
  started_at = none;
  ended_at = none;
  github = no_github;
}

abbrev pub replay : String → Run → CreateRunResponse
replay note r = record { run_id = r.run_id; status = r.status; note = some note }

abbrev pub insert_run : Run → Db → Db
insert_run r db = record db { runs = db.runs ++ r ∷ [] }

module _ {Payload : Type 0} (c : Codec Payload) where
  abbrev pub submit_event : Principal → String → Payload → Event Payload
  submit_event p run_id payload = record {
    org_id = p.org_id;
    actor_user_id = some p.user_id;
    action = "run.submit";
    resource_type = "run";
    resource_id = run_id;
    payload = payload;
  }

  -- After the rollback: the row that won the race, or the error again.
  abbrev pub after_conflict : Server → Option Run → Reply CreateRunResponse × Server
  after_conflict s none = (err integrity_error, s)
  after_conflict s (some r) = (ok (replay "idempotent replay (race)" r), s)

  abbrev pub insert_or_race :
      Call
      → Principal
      → CreateRunRequest Payload
      → Option String
      → Server
      → Db
      → Reply CreateRunResponse × Server
  insert_or_race call p body key s session =
      let r = new_run call p body.request key in
      let seen = call.others session in
      if violates_unique r seen.runs
      then (let committed = call.others s.db in
          after_conflict (record s { db = committed }) (find_keyed p.org_id key committed.runs))
      else (
        ok (record { run_id = call.fresh_run_id; status = queued; note = none }),
        record {
          db = insert_run r seen;
          audit =
              (record_event c s.audit (submit_event p call.fresh_run_id body.audit_payload)
                call.now).1;
        },
      )

  abbrev pub lookup_or_insert :
      Call
      → Principal
      → CreateRunRequest Payload
      → Option String
      → Server
      → Db
      → Option Run
      → Reply CreateRunResponse × Server
  lookup_or_insert call p body key s session (some r) = (ok (replay "idempotent replay" r), s)
  lookup_or_insert call p body key s session none = insert_or_race call p body key s session

  abbrev pub after_cap :
      Call
      → Principal
      → CreateRunRequest Payload
      → Option String
      → Server
      → Reply Db
      → Reply CreateRunResponse × Server
  after_cap call p body key s (err e) = (err e, s)
  after_cap call p body key s (ok session) =
      lookup_or_insert call p body key s session (find_keyed p.org_id key session.runs)

  -- `create_run`; what a session has not committed is gone when the request ends.
  unfoldable pub create_run :
      Call
      → Principal
      → CreateRunRequest Payload
      → Option String
      → Server
      → Reply CreateRunResponse × Server
  create_run call p body header s =
      after_cap call p body (normalised_key header) s (enforce_token_cap s.db p.org_id call.now)

-- What `GET /v1/runs/{run_id}` finds: a row of the database, or a summary of the older log files.
pub data Found (Summary : Type 0) : Type 0 where
  row : Run → Found Summary
  logged : Summary → Found Summary

module _ {Summary : Type 0} (summary_run_id : Summary → String) where
  abbrev pub from_log : Option Summary → Reply (Found Summary)
  from_log none = err not_found
  from_log (some s) = ok (logged s)

  abbrev pub from_db : ℕ → String → List Summary → Option Run → Reply (Found Summary)
  from_db org run_id logs none = from_log (find? (λ s. str_eq (summary_run_id s) run_id) logs)
  from_db org run_id logs (some r) = if r.org_id == org then ok (row r) else err not_found

  -- `get_run`.
  unfoldable pub get_run : Db → List Summary → Principal → String → Reply (Found Summary)
  get_run db logs p run_id =
      from_db p.org_id run_id logs (find? (λ r. str_eq r.run_id run_id) db.runs)
