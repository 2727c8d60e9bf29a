-- ===== src/Trigger/Steps.antt =====
-- The steps of MatchTrigger (internal/service/trigger_service.go), and what they keep.
use eval_prompt.Prelude.{
  ℕ, ◌≤◌, ◌≡◌, refl, sym, ◌∙◌, ◌⊎◌, inl, inr, Bool, true, false, Option, none, some, List, [], ◌∷◌,
  ◌++◌, ltb, if◌then◌else◌, if_elim, length, take, length-take_le, All, nat_eq, list_eq, Text, text,
}
use eval_prompt.Prelude.Int.{ℤ}
use eval_prompt.Prelude.Values.{Fraction}
use eval_prompt.Indexer.{AssetSummary}
use eval_prompt.Trigger.{
  MatchedPrompt, AssetIndexer, TriggerService, no_filters, match_by_triggers, add_candidate, fill,
  with_relevance, scored_assets, higher, rerank, wanted, match_trigger,
}

-- The last steps of MatchTrigger, and all steps after the first matches, by whether these are too
-- few.
abbrev pub cut :
    TriggerService → AssetIndexer → Text → ℤ → List MatchedPrompt → List MatchedPrompt ⊎ Text
cut s indexer input top ms = inl (take (wanted top) (rerank s indexer input (wanted top) ms))

abbrev pub from_found :
    TriggerService
    → AssetIndexer
    → Text
    → ℤ
    → List AssetSummary ⊎ Text
    → Bool
    → List MatchedPrompt ⊎ Text
from_found s indexer input top r few =
    let found = match_by_triggers indexer s.lower input in
    if few
    then elim r [
      | inr err ↦ inr (text "search: " ++ err)
      | inl rs ↦ cut s indexer input top (fill (wanted top) found (with_relevance s.lower input rs))
    ]
    else cut s indexer input top found

pub match_trigger-from_found :
    (s : TriggerService) (indexer : AssetIndexer) (input : Text) (top : ℤ)
    → s.indexer ≡ some indexer
    → match_trigger s input top
      ≡ from_found s indexer input top
          (indexer.search_assets input no_filters)
          (ltb (length (match_by_triggers indexer s.lower input)) (wanted top))
unfolding match_trigger
match_trigger-from_found s indexer input top e = rw (e, match_trigger) refl

-- What holds of the first matches, and is kept by each candidate that is added and by the cut, holds
-- of the result.
module _ (s : TriggerService) (indexer : AssetIndexer) (input : Text) (top : ℤ)
    (Inv : List MatchedPrompt → Type 0) (Cand : AssetSummary × Fraction → Type 0)
    (found : Inv (match_by_triggers indexer s.lower input))
    (adds : (ms : List MatchedPrompt) (c : AssetSummary × Fraction)
      → Cand c
      → Inv ms
      → Inv (add_candidate (wanted top) ms c))
    (takes : (n : ℕ) (ms : List MatchedPrompt) → Inv ms → Inv (take n ms))
    (searched : (rs : List AssetSummary)
      → indexer.search_assets input no_filters ≡ inl rs
      → All Cand (with_relevance s.lower input rs))
    (analyzed : (analyze : Text → Text → Option Fraction) (rs : List AssetSummary)
      → s.semantic_analyzer ≡ some analyze
      → indexer.search_assets [] no_filters ≡ inl rs
      → All Cand (s.sorting.sort_slice higher (scored_assets analyze input rs))) where
  fill_keeps :
      (ms : List MatchedPrompt) (cs : List (AssetSummary × Fraction))
      → All Cand cs
      → Inv ms
      → Inv (fill (wanted top) ms cs)
  unfolding fill
  fill_keeps ms [] c h = h
  fill_keeps ms (r ∷ rs) c h = fill_keeps (add_candidate (wanted top) ms r) rs c.1 (adds ms r c.0 h)

  rerank_keeps : (ms : List MatchedPrompt) → Inv ms → Inv (rerank s indexer input (wanted top) ms)
  unfolding rerank
  rerank_keeps ms h = by_analyzer s.semantic_analyzer refl
    where
      by_search :
          (analyze : Text → Text → Option Fraction) (r : List AssetSummary ⊎ Text)
          → s.semantic_analyzer ≡ some analyze
          → indexer.search_assets [] no_filters ≡ r
          → Inv (elim r as (λ _. List MatchedPrompt) [
            | inr err ↦ ms
            | inl rs ↦
                fill (wanted top) ms (s.sorting.sort_slice higher (scored_assets analyze input rs))
          ])
      by_search analyze (inr err) e q = h
      by_search analyze (inl rs) e q =
          fill_keeps ms (s.sorting.sort_slice higher (scored_assets analyze input rs))
            (analyzed analyze rs e q) h

      by_analyzer :
          (a : Option (Text → Text → Option Fraction))
          → s.semantic_analyzer ≡ a
          → Inv (elim a as (λ _. List MatchedPrompt) [
            | none ↦ ms
            | some analyze ↦
                if ltb (length ms) (wanted top)
                then elim (indexer.search_assets [] no_filters) as (λ _. List MatchedPrompt) [
                  | inr err ↦ ms
                  | inl rs ↦
                      fill
                        (wanted top)
                        ms
                        (s.sorting.sort_slice higher (scored_assets analyze input rs))
                ]
                else ms
          ])
      by_analyzer none e = h
      by_analyzer (some analyze) e =
          if_elim Inv (ltb (length ms) (wanted top))
            (λ _. by_search analyze (indexer.search_assets [] no_filters) e refl) (λ _. h)

  cut_keeps : (l ms : List MatchedPrompt) → Inv l → cut s indexer input top l ≡ inl ms → Inv ms
  cut_keeps l ms h q =
      let e : take (wanted top) (rerank s indexer input (wanted top) l) ≡ ms = cc in
      rw (← e) (takes (wanted top) (rerank s indexer input (wanted top) l) (rerank_keeps l h))

  from_found_keeps :
      (r : List AssetSummary ⊎ Text) (b : Bool) (ms : List MatchedPrompt)
      → indexer.search_assets input no_filters ≡ r
      → from_found s indexer input top r b ≡ inl ms
      → Inv ms
  from_found_keeps (inr err) true ms e q = cc
  from_found_keeps (inl rs) true ms e q =
      cut_keeps
        (fill (wanted top) (match_by_triggers indexer s.lower input)
          (with_relevance s.lower input rs))
        ms
        (fill_keeps (match_by_triggers indexer s.lower input) (with_relevance s.lower input rs)
          (searched rs e) found)
        q
  from_found_keeps r false ms e q = cut_keeps (match_by_triggers indexer s.lower input) ms found q

  pub match_trigger_keeps :
      (ms : List MatchedPrompt)
      → s.indexer ≡ some indexer
      → match_trigger s input top ≡ inl ms
      → Inv ms
  match_trigger_keeps ms e h =
      from_found_keeps (indexer.search_assets input no_filters)
        (ltb (length (match_by_triggers indexer s.lower input)) (wanted top)) ms refl
        (sym (match_trigger-from_found s indexer input top e) ∙ h)

-- No more than wanted.
pub cut_short :
    (s : TriggerService) (indexer : AssetIndexer) (input : Text) (top : ℤ) (ms : List MatchedPrompt)
    → s.indexer ≡ some indexer
    → match_trigger s input top ≡ inl ms
    → length ms ≤ wanted top
cut_short s indexer input top ms e h =
    by_found (indexer.search_assets input no_filters)
      (ltb (length (match_by_triggers indexer s.lower input)) (wanted top))
      (sym (match_trigger-from_found s indexer input top e) ∙ h)
  where
    taken : (l : List MatchedPrompt) → cut s indexer input top l ≡ inl ms → length ms ≤ wanted top
    taken l q =
        let m : take (wanted top) (rerank s indexer input (wanted top) l) ≡ ms = cc in
        rw (← m) (length-take_le (wanted top) (rerank s indexer input (wanted top) l))

    by_found :
        (r : List AssetSummary ⊎ Text) (b : Bool)
        → from_found s indexer input top r b ≡ inl ms
        → length ms ≤ wanted top
    by_found (inr err) true q = cc
    by_found (inl rs) true q =
        taken
          (fill (wanted top) (match_by_triggers indexer s.lower input)
            (with_relevance s.lower input rs))
          q
    by_found r false q = taken (match_by_triggers indexer s.lower input) q

-- Where the search answers, so does the service.
pub from_found-answers :
    (s : TriggerService) (indexer : AssetIndexer) (input : Text) (top : ℤ) (rs : List AssetSummary)
    (few : Bool)
    → (ms : List MatchedPrompt) × (from_found s indexer input top (inl rs) few ≡ inl ms)
from_found-answers s indexer input top rs true = (_, refl)
from_found-answers s indexer input top rs false = (_, refl)
