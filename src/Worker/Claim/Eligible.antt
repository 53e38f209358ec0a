-- ===== src/Worker/Claim/Eligible.antt =====
-- The scan of the queue in `_claim_one` of src/claudestruct/server/worker.py, with its two caches.
use claude_struct.Prelude.{
  ℕ, ◌≡◌, refl, ap, ap₂, ◌∙◌, sym, Bool, Bool-cases, inl, inr, String, some, Option-cases, List, [],
  ◌∷◌, ◌++◌, map, ltb, if◌then◌else◌, keep, arith,
}
use mathlib.Core.List.{append-nil, append_assoc}
use claude_struct.Models.{Run, Db}
use claude_struct.Billing.{get_or_default, sandbox_limits_for_tier, tier_priority_for}
use claude_struct.Billing.Subscriptions.{runs-get_or_default, get_or_default-get_or_default}
use claude_struct.Worker.Claim.{
  org_concurrency, cached, Scan, resolve_org, offer_run, scan_queue, scan_start,
}

-- The tier of an org as `get_or_default` reads it.
abbrev pub tier_of : Db → ℕ → String
tier_of db org = (get_or_default db org).0.tier

abbrev pub limit_of : Db → ℕ → ℕ
limit_of db org = (sandbox_limits_for_tier (tier_of db org)).max_concurrent_runs

-- The org of a run has a free slot.
abbrev pub has_slot : Db → Run → Bool
has_slot db r = ltb (org_concurrency db r.org_id) (limit_of db r.org_id)

abbrev pub with_priority : Db → Run → ℕ × Run
with_priority db r = (tier_priority_for (tier_of db r.org_id), r)

-- What the loop knows after some of the queue: nothing that it cached has changed.
record IsCached (db : Db) (s : Scan) : Type 0 where
  tiers : (org : ℕ) (t : String) → cached org s.org_to_tier ≡ some t → t ≡ tier_of db org
  counts :
      (org : ℕ) (t : String)
      → cached org s.org_to_tier ≡ some t
      → cached org s.org_concurrency ≡ some (org_concurrency db org)
  same_tiers : (org : ℕ) → tier_of s.db org ≡ tier_of db org
  same_runs : s.db.runs ≡ db.runs

tier_of-get_or_default :
    (db : Db) (org key : ℕ) → tier_of (get_or_default db org).1 key ≡ tier_of db key
tier_of-get_or_default db org key = ap (λ s. s.tier) (get_or_default-get_or_default db org key)

org_concurrency-same_runs :
    (a b : Db) (org : ℕ) → a.runs ≡ b.runs → org_concurrency a org ≡ org_concurrency b org
unfolding org_concurrency
org_concurrency-same_runs a b org e = rw e

-- After `resolve_org` both caches hold the org.
record IsResolved (db : Db) (org : ℕ) (s : Scan) : Type 0 where
  tier : cached org s.org_to_tier ≡ some (tier_of db org)
  count : cached org s.org_concurrency ≡ some (org_concurrency db org)

module _ (db : Db) (org : ℕ) (s : Scan) (c : IsCached db s) where
  count_now : org_concurrency (get_or_default s.db org).1 org ≡ org_concurrency db org
  count_now = org_concurrency-same_runs _ _ org (runs-get_or_default s.db org ∙ c.same_runs)

  IsCached-resolve_org : IsCached db (resolve_org org s)
  unfolding resolve_org
  IsCached-resolve_org = elim (Option-cases (cached org s.org_to_tier)) [
    | inr (t, e) ↦ rw e c
    | inl e ↦ rw e (record {
      tiers = λ key t h. ground (arith, c.same_tiers org, c.tiers key t);
      counts = λ key t h. ground (arith, count_now, c.counts key t);
      same_tiers = λ key. tier_of-get_or_default s.db org key ∙ c.same_tiers key;
      same_runs = runs-get_or_default s.db org ∙ c.same_runs;
    })
  ]

  IsResolved-resolve_org : IsResolved db org (resolve_org org s)
  unfolding resolve_org
  IsResolved-resolve_org = elim (Option-cases (cached org s.org_to_tier)) [
    | inr (t, e) ↦ rw e (record { tier = e ∙ ap some (c.tiers org t e); count = c.counts org t e })
    | inl e ↦
        rw e (record { tier = ground (arith, c.same_tiers org); count = ground (arith, count_now) })
  ]

offer_run_lem :
    (db : Db) (r : Run) (s : Scan)
    → IsResolved db r.org_id s
    → offer_run r s
      ≡ (if has_slot db r then record s { eligible = s.eligible ++ with_priority db r ∷ [] } else s)
unfolding offer_run
offer_run_lem db r s k = rw (k.tier, k.count) (ground arith)

IsCached-offer_run :
    (db : Db) (r : Run) (s : Scan)
    → IsCached db s
    → IsResolved db r.org_id s
    → IsCached db (offer_run r s)
IsCached-offer_run db r s c k = rw (offer_run_lem db r s k) (elim (Bool-cases (has_slot db r)) [
  | inl e ↦ rw e (record {
    tiers = c.tiers;
    counts = c.counts;
    same_tiers = c.same_tiers;
    same_runs = c.same_runs;
  })
  | inr e ↦ rw e c
])

eligible-offer_run :
    (db : Db) (r : Run) (s : Scan) (rest : List (ℕ × Run))
    → IsResolved db r.org_id s
    → (offer_run r s).eligible ++ rest
      ≡ s.eligible ++ (if has_slot db r then with_priority db r ∷ rest else rest)
eligible-offer_run db r s rest k = rw (offer_run_lem db r s k) (elim (Bool-cases (has_slot db r)) [
  | inl e ↦ rw e (append_assoc s.eligible (with_priority db r ∷ []) rest)
  | inr e ↦ rw e
])

eligible-resolve_org : (org : ℕ) (s : Scan) → (resolve_org org s).eligible ≡ s.eligible
unfolding resolve_org
eligible-resolve_org org s = ground arith

map-keep :
    (db : Db) (r : Run) (rs : List Run)
    → (let rest = map (with_priority db) (keep (has_slot db) rs) in
        if has_slot db r then with_priority db r ∷ rest else rest)
      ≡ map (with_priority db) (keep (has_slot db) (r ∷ rs))
map-keep db r rs = elim (Bool-cases (has_slot db r)) [ inl e ↦ rw e | inr e ↦ rw e ]

-- What the loop over the queue returns from a state whose caches are right.
scan_queue_lem :
    (db : Db) (rs : List Run) (s : Scan)
    → IsCached db s
    → IsCached db (scan_queue rs s)
      × ((scan_queue rs s).eligible ≡ s.eligible ++ map (with_priority db) (keep (has_slot db) rs))
unfolding scan_queue
scan_queue_lem db [] s c = (c, sym (append-nil s.eligible))
scan_queue_lem db (r ∷ rs) s c =
    let s' = resolve_org r.org_id s in
    let k : IsResolved db r.org_id s' = IsResolved-resolve_org db r.org_id s c in
    let (c', e) =
      scan_queue_lem db rs (offer_run r s')
        (IsCached-offer_run db r s' (IsCached-resolve_org db r.org_id s c) k) in
    (
      c',
      e
          ∙ eligible-offer_run db r s' _ k
          ∙ ap₂ ◌++◌ (eligible-resolve_org r.org_id s) (map-keep db r rs),
    )

IsCached-start : (db : Db) → IsCached db (scan_start db)
IsCached-start db = record {
  tiers = λ org t h. cc;
  counts = λ org t h. cc;
  same_tiers = λ org. refl;
  same_runs = refl;
}

-- The scan offers exactly the queued runs whose org is below its tier's concurrency cap, in the
-- order of the queue, each beside its tier's priority: the caches and the placeholder rows that
-- the loop adds change nothing.
pub eligible-scan_queue :
    (db : Db) (rs : List Run)
    → (scan_queue rs (scan_start db)).eligible ≡ map (with_priority db) (keep (has_slot db) rs)
eligible-scan_queue db rs = (scan_queue_lem db rs (scan_start db) (IsCached-start db)).1

-- The scan writes no run and changes no org's tier.
pub scan_queue_writes :
    (db : Db) (rs : List Run)
    → ((scan_queue rs (scan_start db)).db.runs ≡ db.runs)
      × ((org : ℕ) → tier_of (scan_queue rs (scan_start db)).db org ≡ tier_of db org)
scan_queue_writes db rs =
    let c = (scan_queue_lem db rs (scan_start db) (IsCached-start db)).0 in
    (c.same_runs, c.same_tiers)
