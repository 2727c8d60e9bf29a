-- ===== src/Trigger/Distinct.antt =====
-- The matches of MatchTrigger (internal/service/trigger_service.go) are for different assets.
use eval_prompt.Prelude.{
  ℕ, zero, suc, ◌≡◌, refl, ◌∙◌, Bool, true, false, not, ◌&&◌, List, [], ◌∷◌, ◌++◌, ltb, if_elim,
  and_split, or_false, not-true, length, take, any, any-append, ◌==◌, beq_sym, nat_eq, list_eq,
  Text,
}
use eval_prompt.Prelude.Values.{Fraction}
use eval_prompt.Indexer.{AssetSummary}
use eval_prompt.Trigger.{
  MatchedPrompt, distinct_ids, matched, word_score, trigger_matches, contains_asset_id,
  add_candidate,
}

-- No two matches are for the same asset.
abbrev pub distinct_matches : List MatchedPrompt → Bool
distinct_matches [] = true
distinct_matches (m ∷ ms) = not (contains_asset_id ms m.asset_id) && distinct_matches ms

trigger_matches-absent :
    (lower : Text → Text) (words : List Text) (rs : List AssetSummary) (id : Text)
    → any (λ s. s.id == id) rs ≡ false
    → contains_asset_id (trigger_matches lower words rs) id ≡ false
unfolding trigger_matches contains_asset_id
trigger_matches-absent lower words [] id h = refl
trigger_matches-absent lower words (r ∷ rs) id h =
    let (here, there) = or_false (r.id == id) (any (λ s. s.id == id) rs) h in
    let rest = trigger_matches-absent lower words rs id there in
    if_elim (λ ms. contains_asset_id ms id ≡ false)
      (ltb 0 (word_score 2 words (lower r.name) (lower r.description))) (λ _. rw here rest)
      (λ _. rest)

pub trigger_matches-distinct_matches :
    (lower : Text → Text) (words : List Text) (rs : List AssetSummary)
    → distinct_ids rs ≡ true
    → distinct_matches (trigger_matches lower words rs) ≡ true
unfolding trigger_matches
trigger_matches-distinct_matches lower words [] h = refl
trigger_matches-distinct_matches lower words (r ∷ rs) h =
    let (here, there) = and_split _ _ h in
    let rest = trigger_matches-distinct_matches lower words rs there in
    let absent = trigger_matches-absent lower words rs r.id (not-true _ here) in
    if_elim (λ ms. distinct_matches ms ≡ true)
      (ltb 0 (word_score 2 words (lower r.name) (lower r.description))) (λ _. rw absent rest)
      (λ _. rest)

append-distinct_matches :
    (ms : List MatchedPrompt) (m : MatchedPrompt)
    → distinct_matches ms ≡ true
    → contains_asset_id ms m.asset_id ≡ false
    → distinct_matches (ms ++ (m ∷ [])) ≡ true
unfolding contains_asset_id
append-distinct_matches [] m d h = refl
append-distinct_matches (k ∷ ms) m d h =
    let (here, there) = or_false (k.asset_id == m.asset_id) (contains_asset_id ms m.asset_id) h in
    let (own, rest) = and_split (not (contains_asset_id ms k.asset_id)) (distinct_matches ms) d in
    let apart : contains_asset_id (ms ++ (m ∷ [])) k.asset_id ≡ false =
      any-append (λ n. n.asset_id == k.asset_id) ms (m ∷ [])
      ∙ rw (not-true (contains_asset_id ms k.asset_id) own, beq_sym m.asset_id k.asset_id, here)
          refl in
    rw apart (append-distinct_matches ms m rest there)

pub add_candidate-distinct_matches :
    (top : ℕ) (ms : List MatchedPrompt) (r : AssetSummary × Fraction)
    → distinct_matches ms ≡ true
    → distinct_matches (add_candidate top ms r) ≡ true
unfolding add_candidate
add_candidate-distinct_matches top ms (r, relevance) h =
    if_elim (λ ms. distinct_matches ms ≡ true)
      (ltb (length ms) top && not (contains_asset_id ms r.id))
      (λ e. append-distinct_matches ms (matched r relevance) h (not-true _ (and_split _ _ e).1))
      (λ _. h)

take-absent :
    (n : ℕ) (ms : List MatchedPrompt) (id : Text)
    → contains_asset_id ms id ≡ false
    → contains_asset_id (take n ms) id ≡ false
unfolding contains_asset_id
take-absent zero ms id e = refl
take-absent (suc n) [] id e = refl
take-absent (suc n) (m ∷ ms) id e =
    let (here, there) = or_false (m.asset_id == id) (contains_asset_id ms id) e in
    rw here (take-absent n ms id there)

pub take-distinct_matches :
    (n : ℕ) (ms : List MatchedPrompt)
    → distinct_matches ms ≡ true
    → distinct_matches (take n ms) ≡ true
take-distinct_matches zero ms h = refl
take-distinct_matches (suc n) [] h = refl
take-distinct_matches (suc n) (m ∷ ms) h =
    let (own, rest) = and_split (not (contains_asset_id ms m.asset_id)) (distinct_matches ms) h in
    let apart = take-absent n ms m.asset_id (not-true (contains_asset_id ms m.asset_id) own) in
    rw apart (take-distinct_matches n ms rest)
