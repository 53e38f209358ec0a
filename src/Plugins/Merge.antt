-- ===== src/Plugins/Merge.antt =====
-- `merge_plugins` of src/claudestruct/plugin_sdk/__init__.py.
use claude_struct.Prelude.{
  ◌≡◌, ◌≢◌, refl, Bool-cases, inl, inr, Option, none, some, List, [], ◌∷◌, All,
}
use claude_struct.Plugins.{
  Subagent, Skill, Plugin, Merging, contribute, accepts, merge_one, merge_all, nothing_merged,
  merge_plugins,
}
use claude_struct.Plugins.Distinct.{IsFirsts, Kept-IsFirsts}
use claude_struct.Plugins.Loop.{all_subagents, all_skills, eligible, all-IsMerged, nothing-IsMerged}

module _ {Config : Type 0} where
  pub record Merged (ps : List (Option (Plugin Config))) (m : Merging Config) : Type 0 where
    pub plugins : IsFirsts (λ p. p.name) (eligible ps) (m.plugins).0
    pub subagents : IsFirsts (λ s. s.name) (all_subagents (m.plugins).0) (m.subagents).0
    pub skills : IsFirsts (λ s. s.id) (all_skills (m.plugins).0) (m.skills).0

  -- Whatever `merge_plugins` returns: of the valid plugins of the host's version it holds the
  -- first of each name, of the subagents that the plugins it holds contribute the first of each
  -- name, and of their skills the first of each id; no name and no id twice.
  pub merge_plugins-Merged :
      (ps : List (Option (Plugin Config))) (m : Merging Config)
      → merge_plugins ps ≡ some m
      → Merged ps m
  unfolding merge_plugins
  merge_plugins-Merged ps m h =
      let k = all-IsMerged [] ps nothing_merged m nothing-IsMerged h in
      record {
        plugins = Kept-IsFirsts (λ p. p.name) (eligible ps) m.plugins k.plugins;
        subagents =
            Kept-IsFirsts (λ s. s.name) (all_subagents (m.plugins).0) m.subagents k.subagents;
        skills = Kept-IsFirsts (λ s. s.id) (all_skills (m.plugins).0) m.skills k.skills;
      }

  -- Both collections are there.
  abbrev pub HasCollections : Option (Plugin Config) → Type 0
  HasCollections none = Unit {0}
  HasCollections (some p) = (p.subagents ≢ none) × (p.skills ≢ none)

  contribute-some :
      (ss : Option (List (Option (Subagent Config)))) (ks : Option (List (Option Skill)))
      (m : Merging Config)
      → ss ≢ none
      → ks ≢ none
      → (r : Merging Config) × (contribute ss ks m ≡ some r)
  contribute-some none ks m a b = absurd (a refl)
  contribute-some (some ss) none m a b = absurd (b refl)
  contribute-some (some ss) (some ks) m a b = (_, refl)

  merge_one-some :
      (p : Option (Plugin Config)) (m : Merging Config)
      → HasCollections p
      → (r : Merging Config) × (merge_one p m ≡ some r)
  merge_one-some none m c = (m, refl)
  merge_one-some (some p) m c = elim (Bool-cases (accepts (some p) m)) [
    | inl e ↦ rw e (contribute-some p.subagents p.skills _ c.0 c.1)
    | inr e ↦ rw e (m, refl)
  ]

  merge_all-some :
      (ps : List (Option (Plugin Config))) (m : Merging Config)
      → All HasCollections ps
      → (r : Merging Config) × (merge_all ps m ≡ some r)
  unfolding merge_all
  merge_all-some [] m h = (m, refl)
  merge_all-some (p ∷ ps) m h =
      let (m', e) = merge_one-some p m h.0 in let (r, f) = merge_all-some ps m' h.1 in (r, rw e f)

  -- Where every plugin's two collections are there, valid or not, `merge_plugins` returns, and
  -- returns what the rules say.
  pub merge_plugins_total :
      (ps : List (Option (Plugin Config)))
      → All HasCollections ps
      → (m : Merging Config) × (merge_plugins ps ≡ some m) × Merged ps m
  unfolding merge_plugins
  merge_plugins_total ps h =
      let (m, e) = merge_all-some ps nothing_merged h in (m, e, merge_plugins-Merged ps m e)
