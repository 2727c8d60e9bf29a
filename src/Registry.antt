-- ===== src/Registry.antt =====
-- The registry of evaluation plugins: internal/service/eval/registry.go. The map is passed along; a
-- plugin is an element of a type P with a name. The lock is left out, as each operation holds it.
use eval_prompt.Prelude.{
  ◌≡◌, refl, ap, ◌∙◌, ◌⊎◌, inl, inr, Bool, true, false, Option, none, some, List, [], ◌∷◌, ◌++◌,
  if◌then◌else◌, ◌==◌, nat_eq, list_eq, Text, text,
}
use eval_prompt.Prelude.Maps.{get_key, put_key, get_key-put_key}

module _ {P : Type 0} where
  unfoldable register : (P → Text) → P → List (Text × P) → List (Text × P)
  unfolding put_key
  register name plugin plugins = put_key (name plugin) plugin plugins

  unfoldable get : Text → List (Text × P) → P ⊎ Text
  unfolding get_key
  get name plugins = elim (get_key name plugins) [
    | none ↦ inr (text "eval: plugin not found: " ++ name)
    | some plugin ↦ inl plugin
  ]

  -- The keys of a map.
  abbrev list_names : List (Text × P) → List Text
  list_names [] = []
  list_names (e ∷ plugins) = e.0 ∷ list_names plugins

  -- A plugin that is registered is found under its name, and under every other name what was there.
  get-register :
      (name : P → Text) (plugin : P) (plugins : List (Text × P)) (other : Text)
      → get other (register name plugin plugins)
        ≡ (if name plugin == other then inl plugin else get other plugins)
  unfolding register get
  get-register name plugin plugins other =
      let to_result = λ (found : Option P). elim found as (λ _. P ⊎ Text) [
        | none ↦ inr (text "eval: plugin not found: " ++ other)
        | some p ↦ inl p
      ] in
      ap to_result (get_key-put_key other (name plugin) plugin plugins)
      ∙ ap-if to_result (name plugin == other)
    where
      ap-if :
          (f : Option P → P ⊎ Text) (b : Bool)
          → f (if b then some plugin else get_key other plugins)
            ≡ (if b then f (some plugin) else f (get_key other plugins))
      ap-if f true = refl
      ap-if f false = refl
