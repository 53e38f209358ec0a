-- ===== src/Worker/Claim/Choice.antt =====
-- The run that `_claim_one` picks, and what claiming it does to the database.
use claude_struct.Prelude.{
  ℕ, ◌≤◌, ◌<◌, ◌≡◌, ap, ◌∙◌, Bool, true, Bool-cases, inl, inr, ◌⊎◌, Option, none, some, List, [],
  ◌∷◌, ◌++◌, map, keep, In, All, All-In, All-keep, In-keep, In-append, In-middle, In-sort_up, arith,
  IsFirstBest, Head, empty, first, sort_down-Head, sort_down-map, sort_up-IsAscending, IsAscending,
}
use claude_struct.Calendar.{DateTime, instant}
use claude_struct.Models.{Run, is_queued, Db, save_run, put_run}
use claude_struct.Billing.{tier_priority_for}
use claude_struct.Billing.Subscriptions.{get_or_default-runs}
use claude_struct.Worker.Claim.{
  queued_runs, scan_queue, scan_start, choose, first_run, claimed, claim_choice, claim_one,
}
use claude_struct.Worker.Claim.Eligible.{
  tier_of, has_slot, with_priority, eligible-scan_queue, scan_queue_writes,
}

-- The runs that may be claimed: queued, their org with a free slot, oldest first.
abbrev pub candidates : Db → List Run
candidates db = keep (has_slot db) (queued_runs db)

abbrev pub priority_of : Db → Run → ℕ
priority_of db r = tier_priority_for (tier_of db r.org_id)

data Pick (db : Db) (rs : List Run) : Option Run → Type 0 where
  nothing : rs ≡ [] → Pick db rs none
  best : (r : Run) → IsFirstBest (priority_of db) r rs → Pick db rs (some r)

choose_best : (db : Db) (rs : List Run) → Pick db rs (choose (map (with_priority db) rs))
unfolding choose
choose_best db rs =
    rw (sort_down-map (λ e. e.0) (with_priority db) rs) (go _ (sort_down-Head (priority_of db) rs))
  where
    go :
        (sorted : List Run)
        → Head (priority_of db) rs sorted
        → Pick db rs (first_run (map (with_priority db) sorted))
    go [] (empty e) = nothing e
    go (r ∷ rest) (first _ _ b) = best r b

-- What `claim_one` may return.
pub data Claim (db : Db) (now : DateTime) : Option Run × Db → Type 0 where
  idle :
      (d : Db)
      → candidates db ≡ []
      → d.runs ≡ db.runs
      → ((org : ℕ) → tier_of d org ≡ tier_of db org)
      → Claim db now (none, d)
  pick :
      (r : Run) (d : Db)
      → IsFirstBest (priority_of db) r (candidates db)
      → d.runs ≡ put_run (claimed r now) db.runs
      → ((org : ℕ) → tier_of d org ≡ tier_of db org)
      → Claim db now (some (claimed r now), d)

finish :
    (db : Db) (now : DateTime) (d : Db)
    → d.runs ≡ db.runs
    → ((org : ℕ) → tier_of d org ≡ tier_of db org)
    → (o : Option Run) → Pick db (candidates db) o
    → Claim db now (claim_choice now d o)
unfolding save_run
finish db now d same tiers none (nothing e) = idle d e same tiers
finish db now d same tiers (some r) (best _ b) =
    pick r (save_run (claimed r now) d) b (ap (put_run (claimed r now)) same) (λ org.
      ap (λ q. q.0.tier) (get_or_default-runs d org (put_run (claimed r now) d.runs)) ∙ tiers org)

-- Every call of `claim_one` returns nothing and leaves the runs alone when no queued run's org has
-- a free slot; otherwise it returns the first run of the highest tier priority among those that
-- have one, oldest first, as running, and writes that row alone; no org's tier changes.
pub claim_one-Claim : (db : Db) (now : DateTime) → Claim db now (claim_one db now)
unfolding claim_one
claim_one-Claim db now =
    let (same, tiers) = scan_queue_writes db (queued_runs db) in
    rw (eligible-scan_queue db (queued_runs db)) (
      finish db now (scan_queue (queued_runs db) (scan_start db)).db same tiers _
        (choose_best db (candidates db)))

-- The claimed run was a candidate.
pub In-candidates :
    (db : Db) (r : Run) → IsFirstBest (priority_of db) r (candidates db) → In r (candidates db)
In-candidates db r b = rw b.split (In-middle r b.before b.behind)

-- A candidate is a queued row of the table, and its org has a free slot.
pub candidate_row :
    (db : Db) (r : Run)
    → In r (candidates db)
    → In r db.runs × (is_queued r.status ≡ true) × (has_slot db r ≡ true)
unfolding queued_runs
candidate_row db r m =
    let (q, slot) = In-keep (has_slot db) r (queued_runs db) m in
    let (row, waiting) =
      In-keep (λ x. is_queued x.status) r db.runs
        (In-sort_up (λ x. instant x.created_at) r (keep (λ x. is_queued x.status) db.runs) q) in
    (row, waiting, slot)

behind_no_older :
    (key : Run → ℕ) (r : Run) (pre post : List Run)
    → IsAscending key (pre ++ r ∷ post)
    → All (λ x. key r ≤ key x) post
behind_no_older key r [] post h = h.0
behind_no_older key r (x ∷ pre) post h = behind_no_older key r pre post h.1

pub IsAscending-keep :
    (key : Run → ℕ) (p : Run → Bool) (xs : List Run)
    → IsAscending key xs
    → IsAscending key (keep p xs)
IsAscending-keep key p [] h = tt
IsAscending-keep key p (x ∷ xs) h = elim (Bool-cases (p x)) [
  | inl e ↦ rw e (All-keep (λ y. key x ≤ key y) p xs h.0, IsAscending-keep key p xs h.1)
  | inr e ↦ rw e (IsAscending-keep key p xs h.1)
]

abbrev pub age_key : Run → ℕ
age_key r = instant r.created_at

-- Where a run is the first of the highest priority among the candidates, every candidate has a
-- lower priority than it, or at most the same and was not created earlier.
pub pick_is_best :
    (db : Db) (r other : Run)
    → IsFirstBest (priority_of db) r (candidates db)
    → In other (candidates db)
    → (priority_of db other < priority_of db r)
      ⊎ ((priority_of db other ≤ priority_of db r) × (age_key r ≤ age_key other))
unfolding queued_runs
pick_is_best db r other b m = place (In-append other b.before (r ∷ b.behind) (rw b.split at m))
  where
    ascending : IsAscending age_key (b.before ++ r ∷ b.behind)
    ascending = rw b.split at (
        IsAscending-keep age_key (has_slot db) (queued_runs db)
          (sort_up-IsAscending age_key (keep (λ x. is_queued x.status) db.runs)))

    place :
        In other b.before ⊎ In other (r ∷ b.behind)
        → (priority_of db other < priority_of db r)
          ⊎ ((priority_of db other ≤ priority_of db r) × (age_key r ≤ age_key other))
    place (inl i) =
        inl (All-In (λ y. priority_of db y < priority_of db r) other b.before b.smaller i)
    place (inr (inl e)) = inr (rw e (omega arith, omega arith))
    place (inr (inr i)) = inr (
      All-In (λ y. priority_of db y ≤ priority_of db r) other b.behind b.no_greater i,
      All-In (λ y. age_key r ≤ age_key y) other b.behind
          (behind_no_older age_key r b.before b.behind ascending) i,
    )
