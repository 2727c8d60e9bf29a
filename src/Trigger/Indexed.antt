-- ===== src/Trigger/Indexed.antt =====
-- MatchTrigger of internal/service/trigger_service.go over the index of plugins/search.
use eval_prompt.Prelude.{
  ◌≤◌, ◌≡◌, refl, ap, ◌∙◌, ◌⊎◌, inl, Bool, true, false, not, ◌||◌, Option, none, some, List, [],
  ◌∷◌, arith, ltb, if_elim, and_true, and_split, or_false, not-true, length, any, all, All, ◌==◌,
  beq_refl, beq_sym, nat_eq, list_eq, Text,
}
use eval_prompt.Prelude.Int.{ℤ}
use eval_prompt.Prelude.Spaces.{fields}
use eval_prompt.Prelude.Shuffle.{
  Shuffle, all-Shuffle, sort_by-Shuffle, same, swap, keep_head, chain,
}
use eval_prompt.Prelude.Values.{Fraction}
use eval_prompt.Prelude.Maps.{has_key, distinct_keys}
use eval_prompt.Indexer.{AssetSummary, Assets, Indexer}
use eval_prompt.Indexer.Matching.{
  SearchFilters, match_asset, summary_of, summary_less, matches, search,
}
use eval_prompt.Indexer.Order.{keyed, keyed-id, keyed_rest}
use eval_prompt.Indexer.Store.{IsValid}
use eval_prompt.Trigger.{
  MatchedPrompt, distinct_ids, AssetIndexer, TriggerService, no_filters, word_score,
  trigger_matches, match_by_triggers, with_relevance, scored_assets, higher, wanted, match_trigger,
}
use eval_prompt.Trigger.Distinct.{distinct_matches}
use eval_prompt.Trigger.Steps.{match_trigger-from_found, match_trigger_keeps, from_found-answers}
use eval_prompt.Trigger.Matches.{match_trigger_lem, all-take, add_candidate-all}

any-Shuffle {ℓ} : {A : Type ℓ} (p : A → Bool) {xs ys : List A} → Shuffle xs ys → any p xs ≡ any p ys
any-Shuffle p same = refl
any-Shuffle p (swap {x} {y} {xs}) = ground arith
any-Shuffle p (keep_head {x} h) = ap (λ b. p x || b) (any-Shuffle p h)
any-Shuffle p (chain h k) = any-Shuffle p h ∙ any-Shuffle p k

distinct_ids-Shuffle :
    {xs ys : List AssetSummary} → Shuffle xs ys → distinct_ids xs ≡ distinct_ids ys
distinct_ids-Shuffle same = refl
distinct_ids-Shuffle (swap {x} {y} {xs}) = ground (arith, beq_sym x.id y.id)
distinct_ids-Shuffle (keep_head {x} h) =
    rw (any-Shuffle (λ s. s.id == x.id) h, distinct_ids-Shuffle h) refl
distinct_ids-Shuffle (chain h k) = distinct_ids-Shuffle h ∙ distinct_ids-Shuffle k

matches-ids :
    (query : Text) (filters : SearchFilters) (assets : Assets) (id : Text)
    → keyed assets ≡ true
    → has_key id assets ≡ false
    → any (λ (s : AssetSummary). s.id == id) (matches query filters assets) ≡ false
unfolding matches has_key
matches-ids query filters [] id k h = refl
matches-ids query filters (e ∷ assets) id k h =
    let (here, there) = or_false (e.0 == id) (has_key id assets) h in
    let own : ((summary_of e.1).id == id) ≡ false = rw (keyed-id e assets k) here in
    let rest = matches-ids query filters assets id (keyed_rest e assets k) there in
    if_elim (λ ys. any (λ (s : AssetSummary). s.id == id) ys ≡ false)
      (match_asset e.1.detail query filters) (λ _. rw own rest) (λ _. rest)

matches-distinct_ids :
    (query : Text) (filters : SearchFilters) (assets : Assets)
    → keyed assets ≡ true
    → distinct_keys assets ≡ true
    → distinct_ids (matches query filters assets) ≡ true
unfolding matches
matches-distinct_ids query filters [] k d = refl
matches-distinct_ids query filters (e ∷ assets) k d =
    let (fresh, distinct) = and_split (not (has_key e.0 assets)) (distinct_keys assets) d in
    let rest = matches-distinct_ids query filters assets (keyed_rest e assets k) distinct in
    let absent =
      matches-ids query filters assets (summary_of e.1).id (keyed_rest e assets k)
        (rw (keyed-id e assets k) (not-true (has_key e.0 assets) fresh)) in
    if_elim (λ ys. distinct_ids ys ≡ true) (match_asset e.1.detail query filters)
      (λ _. rw absent rest) (λ _. rest)

pub search-distinct_ids :
    (query : Text) (filters : SearchFilters) (ix : Indexer)
    → IsValid ix
    → distinct_ids (search ix.assets query filters) ≡ true
unfolding search
search-distinct_ids query filters ix (keys, distinct) =
    distinct_ids-Shuffle (sort_by-Shuffle summary_less (matches query filters ix.assets))
    ∙ matches-distinct_ids query filters ix.assets keys distinct

pub found-distinct_ids :
    (query : Text) (filters : SearchFilters) (ix : Indexer)
    → IsValid ix
    → (rs : List AssetSummary)
    → ◌≡◌ {A = List AssetSummary ⊎ Text} (inl (search ix.assets query filters)) (inl rs)
    → distinct_ids rs ≡ true
found-distinct_ids query filters ix valid rs e =
    let q : search ix.assets query filters ≡ rs = cc in
    rw (← q) (search-distinct_ids query filters ix valid)

matches-keys :
    (p : Text → Bool) (query : Text) (filters : SearchFilters) (assets : Assets)
    → keyed assets ≡ true
    → ((id : Text) → has_key id assets ≡ true → p id ≡ true)
    → all (λ (s : AssetSummary). p s.id) (matches query filters assets) ≡ true
unfolding matches has_key
matches-keys p query filters [] k h = refl
matches-keys p query filters (e ∷ assets) k h =
    let own : p (summary_of e.1).id ≡ true =
      rw (keyed-id e assets k) (h e.0 (rw (beq_refl e.0) refl)) in
    let rest =
      matches-keys p query filters assets (keyed_rest e assets k)
        (λ id q. h id (or_true (e.0 == id) (has_key id assets) q)) in
    if_elim (λ ys. all (λ (s : AssetSummary). p s.id) ys ≡ true)
      (match_asset e.1.detail query filters) (λ _. and_true _ _ own rest) (λ _. rest)
  where
    or_true : (a b : Bool) → b ≡ true → (a || b) ≡ true
    or_true a b q = ground arith

search-keys :
    (query : Text) (filters : SearchFilters) (ix : Indexer)
    → IsValid ix
    → all (λ (s : AssetSummary). has_key s.id ix.assets) (search ix.assets query filters) ≡ true
unfolding search
search-keys query filters ix valid =
    all-Shuffle (λ (s : AssetSummary). has_key s.id ix.assets)
      (sort_by-Shuffle summary_less (matches query filters ix.assets))
    ∙ matches-keys (λ id. has_key id ix.assets) query filters ix.assets valid.0 (λ id q. q)

-- The index as what the service asks for.
abbrev pub indexed : (ix : Indexer) → IsValid ix → AssetIndexer
indexed ix valid = record {
  search_assets = λ query filters. inl (search ix.assets query filters);
  search_distinct = λ query filters. found-distinct_ids query filters ix valid;
}

module _ (p : Text → Bool) where
  trigger_matches-all :
      (lower : Text → Text) (words : List Text) (rs : List AssetSummary)
      → all (λ (r : AssetSummary). p r.id) rs ≡ true
      → all (λ (m : MatchedPrompt). p m.asset_id) (trigger_matches lower words rs) ≡ true
  unfolding trigger_matches
  trigger_matches-all lower words [] h = refl
  trigger_matches-all lower words (r ∷ rs) h =
      let (own, there) = and_split (p r.id) (all (λ (r : AssetSummary). p r.id) rs) h in
      let rest = trigger_matches-all lower words rs there in
      if_elim (λ ms. all (λ (m : MatchedPrompt). p m.asset_id) ms ≡ true)
        (ltb 0 (word_score 2 words (lower r.name) (lower r.description)))
        (λ _. and_true _ _ own rest) (λ _. rest)

  with_relevance-All :
      (lower : Text → Text) (input : Text) (rs : List AssetSummary)
      → all (λ (r : AssetSummary). p r.id) rs ≡ true
      → All (λ c. p c.0.id ≡ true) (with_relevance lower input rs)
  unfolding with_relevance
  with_relevance-All lower input [] h = tt
  with_relevance-All lower input (r ∷ rs) h =
      let (own, there) = and_split (p r.id) (all (λ (r : AssetSummary). p r.id) rs) h in
      (own, with_relevance-All lower input rs there)

  scored_assets-all :
      (analyze : Text → Text → Option Fraction) (input : Text) (rs : List AssetSummary)
      → all (λ (r : AssetSummary). p r.id) rs ≡ true
      → all (λ (c : AssetSummary × Fraction). p c.0.id) (scored_assets analyze input rs) ≡ true
  unfolding scored_assets
  scored_assets-all analyze input [] h = refl
  scored_assets-all analyze input (r ∷ rs) h =
      let (own, there) = and_split (p r.id) (all (λ (r : AssetSummary). p r.id) rs) h in
      by_score (analyze input r.description) own (scored_assets-all analyze input rs there)
    where
      by_score :
          (score : Option Fraction)
          → p r.id ≡ true
          → all (λ (c : AssetSummary × Fraction). p c.0.id) (scored_assets analyze input rs) ≡ true
          → all
              (λ (c : AssetSummary × Fraction). p c.0.id)
              (elim score [
                | none ↦ scored_assets analyze input rs
                | some score ↦ (r, score) ∷ scored_assets analyze input rs
              ])
            ≡ true
      by_score none own rest = rest
      by_score (some score) own rest = and_true _ _ own rest

all-All : {A : Type 0} (p : A → Bool) (xs : List A) → all p xs ≡ true → All (λ x. p x ≡ true) xs
all-All p [] h = tt
all-All p (x ∷ xs) h = let (own, there) = and_split (p x) (all p xs) h in (own, all-All p xs there)

-- Over the index, in which every entry stands under its ID: MatchTrigger does not fail, gives at most
-- as many matches as wanted, no two for the same asset, and each for an asset of the index.
pub match_trigger-indexed :
    (s : TriggerService) (ix : Indexer) (valid : IsValid ix) (input : Text) (top : ℤ)
    → s.indexer ≡ some (indexed ix valid)
    → (ms : List MatchedPrompt) × ((match_trigger s input top ≡ inl ms)
        × ((length ms ≤ wanted top)
            × ((distinct_matches ms ≡ true)
                × (all (λ (m : MatchedPrompt). has_key m.asset_id ix.assets) ms ≡ true))))
unfolding match_by_triggers
match_trigger-indexed s ix valid input top e =
    let indexer = indexed ix valid in
    let (ms, answer) =
      from_found-answers s indexer input top (search ix.assets input no_filters)
        (ltb (length (match_by_triggers indexer s.lower input)) (wanted top)) in
    let h = match_trigger-from_found s indexer input top e ∙ answer in
    let (short, distinct) = match_trigger_lem s indexer input top ms e h in
    (
      ms,
      (
        h,
        (
          short,
          (
            distinct,
            match_trigger_keeps s indexer input top
                (λ l. all (λ (m : MatchedPrompt). p m.asset_id) l ≡ true) (λ c. p c.0.id ≡ true)
                (trigger_matches-all p s.lower (fields (s.lower input))
                  (search ix.assets input no_filters) (search-keys input no_filters ix valid))
                (λ l c. add_candidate-all (λ m. p m.asset_id) (wanted top) l c)
                (λ k. all-take (λ m. p m.asset_id) k)
                (λ rs q. with_relevance-All p s.lower input rs (found_keys input rs q))
                (λ analyze rs a q.
                  all-All (λ (c : AssetSummary × Fraction). p c.0.id)
                    (s.sorting.sort_slice higher (scored_assets analyze input rs))
                    (all-Shuffle (λ (c : AssetSummary × Fraction). p c.0.id)
                        (s.sorting.shuffles higher (scored_assets analyze input rs))
                      ∙ scored_assets-all p analyze input rs (found_keys [] rs q)))
                ms e h,
          ),
        ),
      ),
    )
  where
    p : Text → Bool
    p id = has_key id ix.assets

    found_keys :
        (query : Text) (rs : List AssetSummary)
        → ◌≡◌ {A = List AssetSummary ⊎ Text} (inl (search ix.assets query no_filters)) (inl rs)
        → all (λ (r : AssetSummary). has_key r.id ix.assets) rs ≡ true
    found_keys query rs q =
        let same_list : search ix.assets query no_filters ≡ rs = cc in
        rw (← same_list) (search-keys query no_filters ix valid)
