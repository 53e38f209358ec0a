-- ===== src/Plugins.antt =====
-- `merge_plugins` of src/claudestruct/plugin_sdk/__init__.py: what a list of discovered plugins
-- contributes, with its rules on versions and duplicates.
pub mod Distinct
pub mod Loop
pub mod Merge
use claude_struct.Prelude.{
  ℕ, Bool, true, false, ◌&&◌, not, String, Option, none, some, List, [], ◌∷◌, ◌++◌, ◌==◌, str_eq,
  if◌then◌else◌, any,
}

-- `SubagentContribution`; the provider's dictionary is passed on as it is.
pub record Subagent (Config : Type 0) : Type 0 where
  pub name : String
  pub description : String
  pub system_prompt : String
  pub provider : Config

-- `SkillContribution`.
pub record Skill : Type 0 where
  pub id : String
  pub description : String
  pub body : String
  pub apply_to : List String

-- `Plugin` as an entry point builds it: each collection may be `None`, and an element may be an
-- object of another type, which is `none` here. A version that is not positive is 0.
pub record Plugin (Config : Type 0) : Type 0 where
  pub api_version : ℕ
  pub name : String
  pub description : String
  pub subagents : Option (List (Option (Subagent Config)))
  pub skills : Option (List (Option Skill))

abbrev pub plugin_api_version : ℕ
plugin_api_version = 1

-- All elements are of the right type.
abbrev pub all_typed : {A : Type 0} → List (Option A) → Bool
all_typed [] = true
all_typed (none ∷ xs) = false
all_typed (some _ ∷ xs) = all_typed xs

abbrev pub none_or_typed : {A : Type 0} → Option (List (Option A)) → Bool
none_or_typed none = true
none_or_typed (some xs) = all_typed xs

-- The elements, as they are known to be typed.
abbrev pub typed : {A : Type 0} → List (Option A) → List A
typed [] = []
typed (none ∷ xs) = typed xs
typed (some x ∷ xs) = x ∷ typed xs

-- One of the loops over a collection: what is not yet seen by its key is added.
abbrev pub add_new :
    {A : Type 0} → (A → String) → List A → List A × List String → List A × List String
add_new key [] (out, seen) = (out, seen)
add_new key (x ∷ xs) (out, seen) =
    add_new key xs
      (if any (str_eq (key x)) seen then (out, seen) else (out ++ x ∷ [], key x ∷ seen))

-- `MergedPlugins`, each collection with the set of the loop beside it.
pub record Merging (Config : Type 0) : Type 0 where
  pub plugins : List (Plugin Config) × List String
  pub subagents : List (Subagent Config) × List String
  pub skills : List Skill × List String

module _ {Config : Type 0} where
  -- `is_plugin`, on an object that is a `Plugin` or is not.
  unfoldable pub is_plugin : Option (Plugin Config) → Bool
  is_plugin none = false
  is_plugin (some p) =
      not (p.api_version == 0)
      && (not (str_eq p.name "") && (none_or_typed p.subagents && none_or_typed p.skills))

  -- The loops over a plugin's contributions; iterating over `None` is a `TypeError`.
  abbrev pub contribute :
      Option (List (Option (Subagent Config)))
      → Option (List (Option Skill))
      → Merging Config
      → Option (Merging Config)
  contribute (some ss) (some ks) m = some (record m {
    subagents = add_new (λ s. s.name) (typed ss) m.subagents;
    skills = add_new (λ k. k.id) (typed ks) m.skills;
  })
  contribute _ _ m = none

  unfoldable pub accepts : Option (Plugin Config) → Merging Config → Bool
  accepts none m = false
  accepts (some p) m =
      is_plugin (some p)
      && ((p.api_version == plugin_api_version) && not (any (str_eq p.name) (m.plugins).1))

  abbrev pub merge_one : Option (Plugin Config) → Merging Config → Option (Merging Config)
  merge_one none m = some m
  merge_one (some p) m =
      if accepts (some p) m
      then contribute p.subagents p.skills
          (record m { plugins = ((m.plugins).0 ++ p ∷ [], p.name ∷ (m.plugins).1) })
      else some m

  abbrev pub and_then :
      Option (Merging Config) → (Merging Config → Option (Merging Config)) → Option (Merging Config)
  and_then none f = none
  and_then (some m) f = f m

  unfoldable pub merge_all :
      List (Option (Plugin Config)) → Merging Config → Option (Merging Config)
  merge_all [] m = some m
  merge_all (p ∷ ps) m = and_then (merge_one p m) (merge_all ps)

  abbrev pub nothing_merged : Merging Config
  nothing_merged = record { plugins = ([], []); subagents = ([], []); skills = ([], []) }

  -- `merge_plugins`; `none` is the `TypeError`.
  unfoldable pub merge_plugins : List (Option (Plugin Config)) → Option (Merging Config)
  merge_plugins ps = merge_all ps nothing_merged
