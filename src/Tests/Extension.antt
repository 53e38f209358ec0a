-- ===== src/Tests/Extension.antt =====
-- Two plugins of one name, and a subagent that a third contributes again.
use claude_struct.Prelude.{ℕ, ◌≡◌, refl, String, Option, none, some, List, [], ◌∷◌, All}
use claude_struct.Plugins.{Subagent, Plugin, Merging, merge_plugins, merge_all, accepts, is_plugin}
use claude_struct.Plugins.Merge.{Merged, merge_plugins-Merged, HasCollections}

abbrev a_subagent : String → Subagent ℕ
a_subagent text = record {
  name = "critic";
  description = text;
  system_prompt = "be strict";
  provider = 1;
}

abbrev a_plugin : String → String → Option (Plugin ℕ)
a_plugin name text = some (record {
  api_version = 1;
  name = name;
  description = text;
  subagents = some (some (a_subagent text) ∷ []);
  skills = some [];
})

abbrev three_plugins : List (Option (Plugin ℕ))
three_plugins = a_plugin "one" "first" ∷ a_plugin "one" "again" ∷ a_plugin "two" "other" ∷ none ∷ []

three_plugins-HasCollections : All HasCollections three_plugins
three_plugins-HasCollections =
    (((λ h. cc), (λ h. cc)), (((λ h. cc), (λ h. cc)), (((λ h. cc), (λ h. cc)), (tt, tt))))

abbrev the_merge : Merging ℕ
the_merge = record {
  plugins = (
    record {
      api_version = 1;
      name = "one";
      description = "first";
      subagents = some (some (a_subagent "first") ∷ []);
      skills = some [];
    }
        ∷ record {
          api_version = 1;
          name = "two";
          description = "other";
          subagents = some (some (a_subagent "other") ∷ []);
          skills = some [];
        }
        ∷ [],
    "two" ∷ "one" ∷ [],
  );
  subagents = (a_subagent "first" ∷ [], "critic" ∷ []);
  skills = ([], []);
}

merges : merge_plugins three_plugins ≡ some the_merge
unfolding merge_plugins merge_all accepts is_plugin
merges = refl

merge_plugins-Merged_example : Merged three_plugins the_merge
merge_plugins-Merged_example = merge_plugins-Merged three_plugins the_merge merges
