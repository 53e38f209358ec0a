-- ===== src/Alerts/BurnRate/Burning.antt =====
-- `compute_burn_rate_alerts` of src/claudestruct/server/alerts.py: the windows and orgs.
use claude_struct.Prelude.{
  ◌*◌, ◌≤◌, ◌<◌, ◌≡◌, refl, sym, ap, ◌∙◌, false, Bool-cases, inl, inr, ◌↔◌, Option, none, some,
  List, [], ◌∷◌, ltb→lt, lt→ltb, ltb, ◌⊎◌, length, In, In-append, arith,
}
use claude_struct.Calendar.{DateTime}
use claude_struct.Models.{Run, Org, Db}
use claude_struct.Alerts.{critical}
use claude_struct.Alerts.Sorted.{In-sort_by, sort_by-In, In-left, In-right}
use claude_struct.Alerts.BurnRate.{
  BurnRateFinding, burn_rate_min_runs, fast_burn_threshold, BurnWindow, burn_windows, burn_runs,
  failures, burns, burn_finding, burn_of, compute_burn_for_window, append_found, burn_org,
  burn_orgs, burns_as_much, compute_burn_rate_alerts, burn_severity,
}

module _ (db : Db) (now : DateTime) where
  -- A window of an org that burns: the finding, with the runs that it counts.
  pub record IsBurning (f : BurnRateFinding) : Type 0 where
    pub org : Org
    pub listed : In org db.orgs
    pub window : BurnWindow
    pub among : In window burn_windows
    pub enough : burn_rate_min_runs ≤ length (burn_runs db org now window.seconds)
    pub too_fast :
        window.limit * length (burn_runs db org now window.seconds)
        < failures (burn_runs db org now window.seconds) * 10000
    pub is :
        f
        ≡ burn_finding org window
            (length (burn_runs db org now window.seconds))
            (failures (burn_runs db org now window.seconds))

  burn_of-some :
      (org : Org) (w : BurnWindow) (rows : List Run) (f : BurnRateFinding)
      → burn_of org w rows ≡ some f
      → (burn_rate_min_runs ≤ length rows)
        × (w.limit * length rows < failures rows * 10000)
        × (f ≡ burn_finding org w (length rows) (failures rows))
  burn_of-some org w rows f h = elim (Bool-cases (ltb (length rows) burn_rate_min_runs)) [
    | inl few ↦ cc (rw few at h)
    | inr many ↦ elim (Bool-cases (burns (length rows) (failures rows) w.limit)) [
      | inr slow ↦ cc (rw (many, slow) at h)
      | inl fast ↦ (ground arith, ltb→lt _ _ fast, cc (rw (many, fast) at h))
    ]
  ]

  burn_of-burns :
      (org : Org) (w : BurnWindow) (rows : List Run)
      → burn_rate_min_runs ≤ length rows
      → w.limit * length rows < failures rows * 10000
      → burn_of org w rows ≡ some (burn_finding org w (length rows) (failures rows))
  burn_of-burns org w rows many fast =
      let enough : ltb (length rows) burn_rate_min_runs ≡ false = ground arith in
      rw (enough, lt→ltb _ _ fast) refl

  found_or_later :
      (o : Option BurnRateFinding) (rest : List BurnRateFinding) (f : BurnRateFinding)
      → In f (append_found o rest)
      → (o ≡ some f) ⊎ In f rest
  found_or_later none rest f m = inr m
  found_or_later (some g) rest f (inl q) = inl (ap some (sym q))
  found_or_later (some g) rest f (inr m) = inr m

  burn_org-IsBurning :
      (org : Org) (ws : List BurnWindow) (f : BurnRateFinding)
      → In org db.orgs
      → ((w : BurnWindow) → In w ws → In w burn_windows)
      → In f (burn_org db org now ws)
      → IsBurning f
  unfolding burn_org compute_burn_for_window
  burn_org-IsBurning org [] f listed among m = absurd m
  burn_org-IsBurning org (w ∷ ws) f listed among m =
      elim (found_or_later (compute_burn_for_window db org now w) (burn_org db org now ws) f m) [
        | inl made ↦
            (let (many, fast, is) = burn_of-some org w (burn_runs db org now w.seconds) f made in
              record {
                org = org;
                listed = listed;
                window = w;
                among = among w (inl refl);
                enough = many;
                too_fast = fast;
                is = is;
              })
        | inr rest ↦ burn_org-IsBurning org ws f listed (λ v i. among v (inr i)) rest
      ]

  burn_orgs-IsBurning :
      (os : List Org) (f : BurnRateFinding)
      → ((o : Org) → In o os → In o db.orgs)
      → In f (burn_orgs db now os)
      → IsBurning f
  unfolding burn_orgs
  burn_orgs-IsBurning [] f listed m = absurd m
  burn_orgs-IsBurning (o ∷ os) f listed m =
      elim (In-append f (burn_org db o now burn_windows) (burn_orgs db now os) m) [
        | inl i ↦ burn_org-IsBurning o burn_windows f (listed o (inl refl)) (λ w j. j) i
        | inr i ↦ burn_orgs-IsBurning os f (λ p n. listed p (inr n)) i
      ]

  In-append_found :
      (o : Option BurnRateFinding) (rest : List BurnRateFinding) (f : BurnRateFinding)
      → In f rest
      → In f (append_found o rest)
  In-append_found none rest f m = m
  In-append_found (some g) rest f m = inr m

  IsBurning-burn_org :
      (org : Org) (w : BurnWindow) (ws : List BurnWindow) (f : BurnRateFinding)
      → In w ws
      → compute_burn_for_window db org now w ≡ some f
      → In f (burn_org db org now ws)
  unfolding burn_org
  IsBurning-burn_org org w [] f m made = m
  IsBurning-burn_org org w (v ∷ ws) f (inl q) made =
      let here : compute_burn_for_window db org now v ≡ some f =
        ap (compute_burn_for_window db org now) (sym q) ∙ made in
      rw here (inl refl)
  IsBurning-burn_org org w (v ∷ ws) f (inr m) made =
      In-append_found _ _ f (IsBurning-burn_org org w ws f m made)

  IsBurning-burn_orgs :
      (org : Org) (os : List Org) (f : BurnRateFinding)
      → In org os
      → In f (burn_org db org now burn_windows)
      → In f (burn_orgs db now os)
  unfolding burn_orgs
  IsBurning-burn_orgs org [] f m i = absurd m
  IsBurning-burn_orgs org (o ∷ os) f (inl q) i = In-left f _ _ (rw q at i)
  IsBurning-burn_orgs org (o ∷ os) f (inr m) i = In-right f _ _ (IsBurning-burn_orgs org os f m i)

  reported : (f : BurnRateFinding) → IsBurning f → In f (compute_burn_rate_alerts db now)
  unfolding compute_burn_rate_alerts compute_burn_for_window
  reported f b = sort_by-In burns_as_much f (burn_orgs db now db.orgs) (
      IsBurning-burn_orgs b.org db.orgs f b.listed (
        IsBurning-burn_org b.org b.window burn_windows f b.among
          (burn_of-burns b.org b.window _ b.enough b.too_fast ∙ ap some (sym b.is))))

  -- A pass reports exactly the windows of the orgs that have at least ten terminal runs in the
  -- window, of which more than 1.44 percent failed in a window of one hour, or more than 0.6 percent
  -- in one of six hours.
  pub burn_rate-IsBurning :
      (f : BurnRateFinding) → In f (compute_burn_rate_alerts db now) ↔ IsBurning f
  unfolding compute_burn_rate_alerts
  burn_rate-IsBurning f =
      (λ m. burn_orgs-IsBurning db.orgs f (λ o i. i) (In-sort_by burns_as_much f _ m), reported f)

  -- From ten to sixty-nine terminal runs of an org in an hour, a single failed one is enough for an
  -- alert of the highest severity about that org.
  pub single_failure_pages :
      (org : Org)
      → In org db.orgs
      → 10 ≤ length (burn_runs db org now 3600)
      → length (burn_runs db org now 3600) ≤ 69
      → 1 ≤ failures (burn_runs db org now 3600)
      → (f : BurnRateFinding) × In f (compute_burn_rate_alerts db now)
        × (f.org_id ≡ org.id)
        × (burn_severity f ≡ critical)
  unfolding burn_severity
  single_failure_pages org listed many few failed =
      let rows = burn_runs db org now 3600 in
      let hour : BurnWindow = record {
        label = "1h";
        seconds = 3600;
        limit = fast_burn_threshold;
      } in
      let f = burn_finding org hour (length rows) (failures rows) in
      (
        f,
        reported f (record {
          org = org;
          listed = listed;
          window = hour;
          among = inl refl;
          enough = many;
          too_fast = omega arith;
          is = refl;
        }),
        refl,
        refl,
      )
