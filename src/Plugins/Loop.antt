-- ===== src/Plugins/Loop.antt =====
-- The loop over the plugins, and what it has collected at each point.
use mathlib.Core.Path.{subst}
use mathlib.Core.List.{append-nil, append_assoc}
use claude_struct.Prelude.{
  ◌≡◌, refl, sym, ap, ◌∙◌, true, false, ◌&&◌, not, Bool-cases, Option-cases, inl, inr, Option, none,
  some, List, [], ◌∷◌, ◌++◌, ◌==◌, str_eq, if◌then◌else◌, any, arith,
}
use claude_struct.Plugins.{
  Subagent, Skill, Plugin, typed, add_new, Merging, contribute, accepts, merge_one, merge_all,
  nothing_merged, is_plugin, plugin_api_version,
}
use claude_struct.Plugins.Distinct.{Kept, Kept-add_new, Kept-same, nothing-IsTracked}

abbrev pub or_empty : {A : Type 0} → Option (List A) → List A
or_empty none = []
or_empty (some xs) = xs

module _ {Config : Type 0} where
  -- What plugins contribute, one after the other.
  abbrev pub all_subagents : List (Plugin Config) → List (Subagent Config)
  all_subagents [] = []
  all_subagents (p ∷ ps) = typed (or_empty p.subagents) ++ all_subagents ps

  abbrev pub all_skills : List (Plugin Config) → List Skill
  all_skills [] = []
  all_skills (p ∷ ps) = typed (or_empty p.skills) ++ all_skills ps

  -- The plugins that are valid and of the host's version.
  abbrev pub eligible : List (Option (Plugin Config)) → List (Plugin Config)
  eligible [] = []
  eligible (none ∷ ps) = eligible ps
  eligible (some p ∷ ps) =
      let rest = eligible ps in
      if is_plugin (some p) && (p.api_version == plugin_api_version) then p ∷ rest else rest

  -- What the loop over the plugins has made of `ps`.
  pub record IsMerged (ps : List (Option (Plugin Config))) (m : Merging Config) : Type 0 where
    pub plugins : Kept (λ p. p.name) (eligible ps) m.plugins
    pub subagents : Kept (λ s. s.name) (all_subagents (m.plugins).0) m.subagents
    pub skills : Kept (λ s. s.id) (all_skills (m.plugins).0) m.skills

  eligible-append_one :
      (ps : List (Option (Plugin Config))) (p : Option (Plugin Config))
      → eligible (ps ++ p ∷ []) ≡ eligible ps ++ eligible (p ∷ [])
  eligible-append_one [] p = refl
  eligible-append_one (none ∷ ps) p = eligible-append_one ps p
  eligible-append_one (some q ∷ ps) p = ground (arith, eligible-append_one ps p)

  all_subagents-append_one :
      (ps : List (Plugin Config)) (p : Plugin Config)
      → all_subagents (ps ++ p ∷ []) ≡ all_subagents ps ++ typed (or_empty p.subagents)
  all_subagents-append_one [] p = append-nil (typed (or_empty p.subagents))
  all_subagents-append_one (q ∷ ps) p =
      ap (λ l. typed (or_empty q.subagents) ++ l) (all_subagents-append_one ps p)
      ∙ sym (
          append_assoc (typed (or_empty q.subagents)) (all_subagents ps)
            (typed (or_empty p.subagents)))

  all_skills-append_one :
      (ps : List (Plugin Config)) (p : Plugin Config)
      → all_skills (ps ++ p ∷ []) ≡ all_skills ps ++ typed (or_empty p.skills)
  all_skills-append_one [] p = append-nil (typed (or_empty p.skills))
  all_skills-append_one (q ∷ ps) p =
      ap (λ l. typed (or_empty q.skills) ++ l) (all_skills-append_one ps p)
      ∙ sym (append_assoc (typed (or_empty q.skills)) (all_skills ps) (typed (or_empty p.skills)))

  -- The plugin is added to the plugins, whether or not its name is new.
  plugin-Kept :
      (ps : List (Option (Plugin Config))) (p : Plugin Config) (m : Merging Config)
      → IsMerged ps m
      → is_plugin (some p) && (p.api_version == plugin_api_version) ≡ true
      → Kept (λ q. q.name) (eligible (ps ++ some p ∷ [])) (add_new (λ q. q.name) (p ∷ []) m.plugins)
  plugin-Kept ps p m k e =
      Kept-same (λ q. q.name) (eligible ps ++ p ∷ []) (eligible (ps ++ some p ∷ [])) _
        (sym (eligible-append_one ps (some p) ∙ rw e refl))
        (Kept-add_new (λ q. q.name) (eligible ps) (p ∷ []) m.plugins k.plugins)

  contribute-IsMerged :
      (ps : List (Option (Plugin Config))) (p : Plugin Config) (m r : Merging Config)
      (ss : Option (List (Option (Subagent Config)))) (ks : Option (List (Option Skill)))
      → IsMerged ps m
      → is_plugin (some p) && (p.api_version == plugin_api_version) ≡ true
      → any (str_eq p.name) (m.plugins).1 ≡ false
      → p.subagents ≡ ss
      → p.skills ≡ ks
      → contribute ss ks (record m { plugins = ((m.plugins).0 ++ p ∷ [], p.name ∷ (m.plugins).1) })
        ≡ some r
      → IsMerged (ps ++ some p ∷ []) r
  contribute-IsMerged ps p m r none ks k e new es ek h = cc
  contribute-IsMerged ps p m r (some ss) none k e new es ek h = cc
  contribute-IsMerged ps p m r (some ss) (some ks) k e new es ek h =
      let P = (m.plugins).0 in
      let q : (record m {
        plugins = (P ++ p ∷ [], p.name ∷ (m.plugins).1);
        subagents = add_new (λ s. s.name) (typed ss) m.subagents;
        skills = add_new (λ s. s.id) (typed ks) m.skills;
      })
          ≡ r =
        cc in
      subst (IsMerged (ps ++ some p ∷ [])) q (record {
        plugins = rw new at (plugin-Kept ps p m k e);
        subagents =
            Kept-same (λ s. s.name) (all_subagents P ++ typed ss) (all_subagents (P ++ p ∷ [])) _
              (sym
                (all_subagents-append_one P p ∙ ap (λ o. all_subagents P ++ typed (or_empty o)) es))
              (Kept-add_new (λ s. s.name) (all_subagents P) (typed ss) m.subagents k.subagents);
        skills =
            Kept-same (λ s. s.id) (all_skills P ++ typed ks) (all_skills (P ++ p ∷ [])) _
              (sym (all_skills-append_one P p ∙ ap (λ o. all_skills P ++ typed (or_empty o)) ek))
              (Kept-add_new (λ s. s.id) (all_skills P) (typed ks) m.skills k.skills);
      })

  -- A plugin that is passed over, where the plugins stand for it all the same.
  passed-IsMerged :
      (ps : List (Option (Plugin Config))) (p : Option (Plugin Config)) (m r : Merging Config)
      → IsMerged ps m
      → Kept (λ q. q.name) (eligible (ps ++ p ∷ [])) m.plugins
      → some m ≡ some r
      → IsMerged (ps ++ p ∷ []) r
  passed-IsMerged ps p m r k kept h =
      let q : m ≡ r = cc in
      subst (IsMerged (ps ++ p ∷ [])) q
        (record { plugins = kept; subagents = k.subagents; skills = k.skills })

  not_eligible :
      (ps : List (Option (Plugin Config))) (p : Option (Plugin Config)) (m : Merging Config)
      → IsMerged ps m
      → eligible (p ∷ []) ≡ []
      → Kept (λ q. q.name) (eligible (ps ++ p ∷ [])) m.plugins
  not_eligible ps p m k e =
      Kept-same (λ q. q.name) (eligible ps) (eligible (ps ++ p ∷ [])) m.plugins
        (sym (eligible-append_one ps p ∙ ap (λ l. eligible ps ++ l) e ∙ append-nil (eligible ps)))
        k.plugins

  accepts-eq :
      (p : Plugin Config) (m : Merging Config)
      → accepts (some p) m ≡ (
          (is_plugin (some p) && (p.api_version == plugin_api_version))
          && not (any (str_eq p.name) (m.plugins).1))
  unfolding accepts
  accepts-eq p m = ground arith

  one-IsMerged :
      (ps : List (Option (Plugin Config))) (p : Option (Plugin Config)) (m r : Merging Config)
      → IsMerged ps m
      → merge_one p m ≡ some r
      → IsMerged (ps ++ p ∷ []) r
  one-IsMerged ps none m r k h = passed-IsMerged ps none m r k (not_eligible ps none m k refl) h
  one-IsMerged ps (some p) m r k h =
      elim (Bool-cases (is_plugin (some p) && (p.api_version == plugin_api_version))) [
        | inr e ↦
            passed-IsMerged ps (some p) m r k (not_eligible ps (some p) m k (rw e refl))
              (rw e at (rw (accepts-eq p m) at h))
        | inl e ↦ elim (Bool-cases (any (str_eq p.name) (m.plugins).1)) [
          | inl seen ↦
              passed-IsMerged ps (some p) m r k (rw seen at (plugin-Kept ps p m k e))
                (rw seen at (rw e at (rw (accepts-eq p m) at h)))
          | inr new ↦
              contribute-IsMerged ps p m r p.subagents p.skills k e new refl refl
                (rw new at (rw e at (rw (accepts-eq p m) at h)))
        ]
      ]

  pub all-IsMerged :
      (done ps : List (Option (Plugin Config))) (m r : Merging Config)
      → IsMerged done m
      → merge_all ps m ≡ some r
      → IsMerged (done ++ ps) r
  unfolding merge_all
  all-IsMerged done [] m r k h =
      let q : m ≡ r = cc in rw (append-nil done) (subst (IsMerged done) q k)
  all-IsMerged done (p ∷ ps) m r k h = elim (Option-cases (merge_one p m)) [
    | inl e ↦ cc (rw e at h)
    | inr (m', e) ↦
        subst (λ l. IsMerged l r) (append_assoc done (p ∷ []) ps)
          (all-IsMerged (done ++ p ∷ []) ps m' r (one-IsMerged done p m m' k e) (rw e at h))
  ]

  pub nothing-IsMerged : IsMerged [] nothing_merged
  nothing-IsMerged = record {
    plugins = (nothing-IsTracked (λ q. q.name), λ k. refl);
    subagents = (nothing-IsTracked (λ q. q.name), λ k. refl);
    skills = (nothing-IsTracked (λ q. q.id), λ k. refl);
  }
