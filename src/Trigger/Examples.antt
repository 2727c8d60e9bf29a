-- ===== src/Trigger/Examples.antt =====
-- Runs of the trigger service (internal/service/trigger_service.go).
use eval_prompt.Prelude.{
  ◌≤◌, ◌≡◌, refl, inl, true, none, some, List, [], ◌∷◌, length, all, nat_eq, list_eq, Text, text,
}
use eval_prompt.Prelude.Int.{pos}
use eval_prompt.Prelude.Strings.{has_prefix, contains_text}
use eval_prompt.Prelude.Spaces.{space_before, fields_from, fields}
use eval_prompt.Prelude.Shuffle.{insert_by, sort_by, sort_by-Shuffle}
use eval_prompt.Prelude.Maps.{has_key}
use eval_prompt.Indexer.{Asset, Indexer, saved_detail}
use eval_prompt.Indexer.Matching.{
  lower_byte, equal_bytes, equal_ignore_case, contains_from, contains_ignore_case, match_query,
  match_asset, summary_of, summary_less, matches, search,
}
use eval_prompt.Indexer.Store.{IsValid}
use eval_prompt.Trigger.{
  MatchedPrompt, TriggerService, matched, word_score, calculate_relevance, trigger_matches,
  match_by_triggers, contains_asset_id, add_candidate, fill, with_relevance, rerank, match_trigger,
}
use eval_prompt.Trigger.Distinct.{distinct_matches}
use eval_prompt.Trigger.Matches.{all_in_unit, match_trigger-in_unit}
use eval_prompt.Trigger.Indexed.{indexed, match_trigger-indexed}
use eval_prompt.Trigger.Injection.{replace_from, replace_variables, inject_variables}

abbrev lower_ascii : Text → Text
lower_ascii [] = []
lower_ascii (c ∷ s) = lower_byte c ∷ lower_ascii s

abbrev mail : Asset
mail = record {
  id = text "mail";
  name = text "Write a mail";
  description = text "for mail";
  asset_type = text "prompt";
  category = text "content";
  tags = [];
  content_hash = [];
  file_path = [];
  repo_path = [];
  asset_path = [];
  state = text "draft";
  created_at = 1;
  updated_at = 2;
}

abbrev index : Indexer
index = record {
  assets = (text "mail", record { asset = mail; detail = saved_detail mail }) ∷ [];
  summaries = [];
  git_bridge = none;
  persist_dir = [];
}

index-IsValid : IsValid index
unfolding saved_detail has_key
index-IsValid = (refl, refl)

abbrev service : TriggerService
service = record {
  indexer = some (indexed index index-IsValid);
  semantic_analyzer = none;
  lower = lower_ascii;
  sorting = record { sort_slice = sort_by; shuffles = sort_by-Shuffle };
}

abbrev found : List MatchedPrompt
found =
    matched (summary_of (record { asset = mail; detail = saved_detail mail }))
      (record { num = pos 3; den = 3 })
    ∷ []

-- `mail` stands in the name and in the description.
found_mail : match_trigger service (text "MAIL") (pos 0) ≡ inl found
unfolding match_trigger match_by_triggers trigger_matches word_score fields fields_from space_before
    search matches match_asset match_query contains_ignore_case contains_from equal_ignore_case
    equal_bytes sort_by insert_by summary_less summary_of saved_detail contains_text has_prefix fill
    add_candidate with_relevance calculate_relevance contains_asset_id rerank
found_mail = refl

match_trigger-in_unit_example : all_in_unit found ≡ true
match_trigger-in_unit_example =
    match_trigger-in_unit service (indexed index index-IsValid) (text "MAIL") (pos 0) found refl
      refl found_mail

match_trigger-indexed_example :
    (ms : List MatchedPrompt) × ((match_trigger service (text "MAIL") (pos 3) ≡ inl ms)
      × ((length ms ≤ 3)
          × ((distinct_matches ms ≡ true)
              × (all (λ (m : MatchedPrompt). has_key m.asset_id index.assets) ms ≡ true))))
match_trigger-indexed_example =
    match_trigger-indexed service index index-IsValid (text "MAIL") (pos 3) refl

-- The result depends on the order in which the runtime ranges over the variables.
order_of_variables :
    (inject_variables
        (λ _ _. none)
        (text "{{a}}")
        ((text "a", text "{{b}}") ∷ (text "b", text "x") ∷ [])
      ≡ inl (text "x"))
    × (inject_variables
          (λ _ _. none)
          (text "{{a}}")
          ((text "b", text "x") ∷ (text "a", text "{{b}}") ∷ [])
        ≡ inl (text "{{b}}"))
unfolding inject_variables replace_variables replace_from contains_text has_prefix
order_of_variables = (refl, refl)
