-- ===== src/Trigger/Matches.antt =====
-- What MatchTrigger of internal/service/trigger_service.go gives.
use eval_prompt.Prelude.{
  ℕ, zero, suc, ◌*◌, ◌≤◌, ◌≡◌, refl, sym, ◌∙◌, ◌⊎◌, inl, inr, Bool, true, not, ◌&&◌, none, some,
  List, [], ◌∷◌, ◌++◌, arith, ltb, if_elim, and_true, length, take, all, All, nat_eq, list_eq, Text,
}
use eval_prompt.Prelude.Int.{ℤ, leb_ℤ, pos}
use eval_prompt.Prelude.Spaces.{fields}
use eval_prompt.Prelude.Values.{Fraction}
use eval_prompt.Indexer.{AssetSummary}
use eval_prompt.Trigger.{
  MatchedPrompt, AssetIndexer, TriggerService, no_filters, matched, word_score, normalized,
  calculate_relevance, trigger_matches, match_by_triggers, contains_asset_id, add_candidate,
  with_relevance, scored_assets, higher, wanted, match_trigger,
}
use eval_prompt.Trigger.Distinct.{
  distinct_matches, trigger_matches-distinct_matches, add_candidate-distinct_matches,
  take-distinct_matches,
}
use eval_prompt.Trigger.Steps.{match_trigger_keeps, cut_short}

no_demand : {A : Type 0} (rs : List A) → All {0, 0} (λ _. Unit {0}) rs
no_demand [] = tt
no_demand (r ∷ rs) = (tt, no_demand rs)

match_by_triggers-distinct_matches :
    (indexer : AssetIndexer) (lower : Text → Text) (input : Text)
    → distinct_matches (match_by_triggers indexer lower input) ≡ true
unfolding match_by_triggers
match_by_triggers-distinct_matches indexer lower input =
    by_search (indexer.search_assets input no_filters) refl
  where
    by_search :
        (r : List AssetSummary ⊎ Text)
        → indexer.search_assets input no_filters ≡ r
        → distinct_matches (elim r as (λ _. List MatchedPrompt) [
          | inr err ↦ []
          | inl rs ↦ trigger_matches lower (fields (lower input)) rs
        ])
          ≡ true
    by_search (inr err) e = refl
    by_search (inl rs) e =
        trigger_matches-distinct_matches lower (fields (lower input)) rs
          (indexer.search_distinct input no_filters rs e)

-- MatchTrigger gives at most as many matches as wanted, 5 where none or fewer are wanted, and no two
-- for the same asset, with an analyzer or without.
pub match_trigger_lem :
    (s : TriggerService) (indexer : AssetIndexer) (input : Text) (top : ℤ) (ms : List MatchedPrompt)
    → s.indexer ≡ some indexer
    → match_trigger s input top ≡ inl ms
    → (length ms ≤ wanted top) × (distinct_matches ms ≡ true)
match_trigger_lem s indexer input top ms e h = (
  cut_short s indexer input top ms e h,
  match_trigger_keeps s indexer input top (λ l. distinct_matches l ≡ true) (λ _. Unit)
      (match_by_triggers-distinct_matches indexer s.lower input)
      (λ l c _. add_candidate-distinct_matches (wanted top) l c) take-distinct_matches
      (λ rs _. no_demand (with_relevance s.lower input rs))
      (λ analyze rs _ _. no_demand (s.sorting.sort_slice higher (scored_assets analyze input rs)))
      ms e h,
)

-- A relevance between 0 and 1.
abbrev pub in_unit : Fraction → Bool
in_unit f = leb_ℤ (pos 0) f.num && (ltb 0 f.den && leb_ℤ f.num (pos f.den))

abbrev pub all_in_unit : List MatchedPrompt → Bool
all_in_unit ms = all (λ (m : MatchedPrompt). in_unit m.relevance) ms

word_score_le :
    (least : ℕ) (words : List Text) (name description : Text)
    → word_score least words name description ≤ length words * 3
unfolding word_score
word_score_le least [] name description = omega arith
word_score_le least (word ∷ words) name description =
    ground (arith, word_score_le least words name description)

normalized-in_unit :
    (score : ℕ) (words : List Text)
    → score ≤ length words * 3
    → in_unit (normalized score words) ≡ true
normalized-in_unit score [] h = refl
normalized-in_unit score (word ∷ words) h = ground arith

all-append :
    {A : Type 0} (p : A → Bool) (xs ys : List A) → all p (xs ++ ys) ≡ (all p xs && all p ys)
all-append p [] ys = refl
all-append p (x ∷ xs) ys = ground (arith, all-append p xs ys)

pub all-take :
    {A : Type 0} (p : A → Bool) (n : ℕ) (xs : List A) → all p xs ≡ true → all p (take n xs) ≡ true
all-take p zero xs h = refl
all-take p (suc n) [] h = refl
all-take p (suc n) (x ∷ xs) h = ground (arith, all-take p n xs)

trigger_matches-in_unit :
    (lower : Text → Text) (words : List Text) (rs : List AssetSummary)
    → all_in_unit (trigger_matches lower words rs) ≡ true
unfolding trigger_matches
trigger_matches-in_unit lower words [] = refl
trigger_matches-in_unit lower words (r ∷ rs) =
    let score = word_score 2 words (lower r.name) (lower r.description) in
    let rest = trigger_matches-in_unit lower words rs in
    if_elim (λ ms. all_in_unit ms ≡ true) (ltb 0 score)
      (λ _.
        and_true _ _
          (normalized-in_unit score words
            (word_score_le 2 words (lower r.name) (lower r.description)))
          rest)
      (λ _. rest)

pub add_candidate-all :
    (p : MatchedPrompt → Bool) (top : ℕ) (ms : List MatchedPrompt) (c : AssetSummary × Fraction)
    → p (matched c.0 c.1) ≡ true
    → all p ms ≡ true
    → all p (add_candidate top ms c) ≡ true
unfolding add_candidate
add_candidate-all p top ms (r, relevance) q h =
    if_elim (λ ms. all p ms ≡ true) (ltb (length ms) top && not (contains_asset_id ms r.id))
      (λ _. all-append p ms (matched r relevance ∷ []) ∙ rw (h, q) refl) (λ _. h)

with_relevance-in_unit :
    (lower : Text → Text) (input : Text) (rs : List AssetSummary)
    → All (λ c. in_unit c.1 ≡ true) (with_relevance lower input rs)
unfolding with_relevance calculate_relevance
with_relevance-in_unit lower input [] = tt
with_relevance-in_unit lower input (r ∷ rs) =
    let words = fields (lower input) in
    (
      normalized-in_unit (word_score 3 words (lower r.name) (lower r.description)) words
          (word_score_le 3 words (lower r.name) (lower r.description)),
      with_relevance-in_unit lower input rs,
    )

-- Without a semantic analyzer, the relevance of every match lies between 0 and 1.
pub match_trigger-in_unit :
    (s : TriggerService) (indexer : AssetIndexer) (input : Text) (top : ℤ) (ms : List MatchedPrompt)
    → s.indexer ≡ some indexer
    → s.semantic_analyzer ≡ none
    → match_trigger s input top ≡ inl ms
    → all_in_unit ms ≡ true
unfolding match_by_triggers
match_trigger-in_unit s indexer input top ms e n =
    match_trigger_keeps s indexer input top (λ l. all_in_unit l ≡ true) (λ c. in_unit c.1 ≡ true)
      (by_search (indexer.search_assets input no_filters))
      (λ l c. add_candidate-all (λ m. in_unit m.relevance) (wanted top) l c)
      (λ k. all-take (λ m. in_unit m.relevance) k) (λ rs _. with_relevance-in_unit s.lower input rs)
      (λ analyze rs a _. absurd (some_apart (sym a ∙ n))) ms e
  where
    some_apart : {A : Type 0} {a : A} → some a ≡ none → ⊥
    some_apart p = cc

    by_search :
        (r : List AssetSummary ⊎ Text)
        → all_in_unit (elim r as (λ _. List MatchedPrompt) [
          | inr err ↦ []
          | inl rs ↦ trigger_matches s.lower (fields (s.lower input)) rs
        ])
          ≡ true
    by_search (inr err) = refl
    by_search (inl rs) = trigger_matches-in_unit s.lower (fields (s.lower input)) rs
