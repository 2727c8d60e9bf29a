-- ===== src/Trigger.antt =====
-- The matching of prompts of internal/service/trigger_service.go. A relevance is a quotient of two
-- numbers. `lower` is strings.ToLower, which goes by the tables of Unicode.
pub mod Injection
pub mod Distinct
pub mod Steps
pub mod Matches
pub mod Indexed
mod Examples
use eval_prompt.Prelude.{
  ℕ, ◌+◌, ◌*◌, ◌≡◌, ◌⊎◌, inl, inr, Bool, true, not, ◌&&◌, Option, none, some, List, [], ◌∷◌, ◌++◌,
  ltb, if◌then◌else◌, length, take, any, ◌==◌, nat_eq, list_eq, Text, text,
}
use eval_prompt.Prelude.Int.{ℤ, pos_part, ◌*ℤ◌, ltb_ℤ, leb_ℤ, pos}
use eval_prompt.Prelude.Strings.{contains_text}
use eval_prompt.Prelude.Spaces.{fields}
use eval_prompt.Prelude.Shuffle.{SortSlice}
use eval_prompt.Prelude.Values.{Fraction}
use eval_prompt.Indexer.{AssetSummary}
use eval_prompt.Indexer.Matching.{SearchFilters, matches}

pub record MatchedPrompt : Type 0 where
  pub asset_id : Text
  pub name : Text
  pub description : Text
  pub content : Text
  pub variables : List Text
  pub relevance : Fraction
  pub labels : List (Text × Text)

-- No two assets have the same ID.
abbrev pub distinct_ids : List AssetSummary → Bool
distinct_ids [] = true
distinct_ids (r ∷ rs) = not (any (λ (s : AssetSummary). s.id == r.id) rs) && distinct_ids rs

-- What the service asks of the index: Search, which gives an asset at most once.
pub record AssetIndexer : Type 0 where
  pub search_assets : Text → SearchFilters → List AssetSummary ⊎ Text
  pub search_distinct :
      (query : Text) (filters : SearchFilters) (rs : List AssetSummary)
      → search_assets query filters ≡ inl rs
      → distinct_ids rs ≡ true

-- The semantic analyzer scores a content against a description, or fails. strings.ToLower and
-- sort.Slice are parameters; sort.Slice leaves the order of equal scores open.
pub record TriggerService : Type 0 where
  pub indexer : Option AssetIndexer
  pub semantic_analyzer : Option (Text → Text → Option Fraction)
  pub lower : Text → Text
  pub sorting : SortSlice (AssetSummary × Fraction)

abbrev pub no_filters : SearchFilters
no_filters = record {
  repo_path = [];
  category = [];
  asset_type = [];
  tags = [];
  state = [];
  label = [];
}

abbrev pub matched : AssetSummary → Fraction → MatchedPrompt
matched r relevance = record {
  asset_id = r.id;
  name = r.name;
  description = r.description;
  content = [];
  variables = [];
  relevance = relevance;
  labels = [];
}

-- The loop over the words of the input: 2 for a word in the name, 1 for one in the description.
unfoldable pub word_score : ℕ → List Text → Text → Text → ℕ
unfolding contains_text
word_score least [] name description = 0
word_score least (word ∷ words) name description =
    let rest = word_score least words name description in
    if ltb (length word) least
    then rest
    else (if contains_text name word then 2 else 0)
      + (if contains_text description word then 1 else 0)
      + rest

-- The score over the most that it can be, 0 without words.
abbrev pub normalized : ℕ → List Text → Fraction
normalized score words =
    if length words == 0
    then record { num = pos 0; den = 1 }
    else record { num = pos score; den = length words * 3 }

unfoldable pub calculate_relevance : (Text → Text) → Text → Text → Text → Fraction
unfolding word_score fields
calculate_relevance lower input name description =
    let words = fields (lower input) in
    normalized (word_score 3 words (lower name) (lower description)) words

-- The loop of matchByTriggers over the results of the search.
unfoldable pub trigger_matches : (Text → Text) → List Text → List AssetSummary → List MatchedPrompt
unfolding word_score
trigger_matches lower words [] = []
trigger_matches lower words (r ∷ rs) =
    let rest = trigger_matches lower words rs in
    let score = word_score 2 words (lower r.name) (lower r.description) in
    if ltb 0 score then matched r (normalized score words) ∷ rest else rest

unfoldable pub match_by_triggers : AssetIndexer → (Text → Text) → Text → List MatchedPrompt
unfolding trigger_matches fields
match_by_triggers indexer lower input = elim (indexer.search_assets input no_filters) [
  | inr err ↦ []
  | inl rs ↦ trigger_matches lower (fields (lower input)) rs
]

unfoldable pub contains_asset_id : List MatchedPrompt → Text → Bool
contains_asset_id matches id = any (λ (m : MatchedPrompt). m.asset_id == id) matches

-- The bodies of the loops that fill the matches up to `top` with assets that are not there yet.
unfoldable pub add_candidate : ℕ → List MatchedPrompt → AssetSummary × Fraction → List MatchedPrompt
unfolding contains_asset_id
add_candidate top matches (r, relevance) =
    if ltb (length matches) top && not (contains_asset_id matches r.id)
    then matches ++ (matched r relevance ∷ [])
    else matches

unfoldable pub fill : ℕ → List MatchedPrompt → List (AssetSummary × Fraction) → List MatchedPrompt
unfolding add_candidate
fill top matches [] = matches
fill top matches (r ∷ rs) = fill top (add_candidate top matches r) rs

-- The candidates of the search, with their relevance.
unfoldable pub with_relevance :
    (Text → Text) → Text → List AssetSummary → List (AssetSummary × Fraction)
unfolding calculate_relevance
with_relevance lower input [] = []
with_relevance lower input (r ∷ rs) =
    (r, calculate_relevance lower input r.name r.description) ∷ with_relevance lower input rs

-- The assets that the analyzer scores.
unfoldable pub scored_assets :
    (Text → Text → Option Fraction) → Text → List AssetSummary → List (AssetSummary × Fraction)
scored_assets analyze input [] = []
scored_assets analyze input (r ∷ rs) =
    let rest = scored_assets analyze input rs in
    elim (analyze input r.description) [ none ↦ rest | some score ↦ (r, score) ∷ rest ]

abbrev pub higher : AssetSummary × Fraction → AssetSummary × Fraction → Bool
higher a b = ltb_ℤ (b.1.num *ℤ pos a.1.den) (a.1.num *ℤ pos b.1.den)

-- The semantic step.
unfoldable pub rerank :
    TriggerService → AssetIndexer → Text → ℕ → List MatchedPrompt → List MatchedPrompt
unfolding fill scored_assets ◌*ℤ◌
rerank s indexer input top matches = elim s.semantic_analyzer [
  | none ↦ matches
  | some analyze ↦
      if ltb (length matches) top
      then elim (indexer.search_assets [] no_filters) [
        | inr err ↦ matches
        | inl rs ↦ fill top matches (s.sorting.sort_slice higher (scored_assets analyze input rs))
      ]
      else matches
]

-- The number of matches wanted, 5 by default.
abbrev pub wanted : ℤ → ℕ
wanted top = if leb_ℤ top (pos 0) then 5 else pos_part top

unfoldable pub match_trigger : TriggerService → Text → ℤ → List MatchedPrompt ⊎ Text
unfolding match_by_triggers fill with_relevance rerank
match_trigger s input top = elim s.indexer [
  | none ↦ inr (text "indexer not configured")
  | some indexer ↦
      let found = match_by_triggers indexer s.lower input in
      if ltb (length found) (wanted top)
      then elim (indexer.search_assets input no_filters) [
        | inr err ↦ inr (text "search: " ++ err)
        | inl rs ↦ inl (
            take (wanted top) (
              rerank s indexer input (wanted top)
                (fill (wanted top) found (with_relevance s.lower input rs))))
      ]
      else inl (take (wanted top) (rerank s indexer input (wanted top) found))
]
