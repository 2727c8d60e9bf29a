-- ===== src/Indexer/Order.antt =====
-- The results of Search (plugins/search/search.go): what they are and their order.
use eval_prompt.Prelude.{
  ◌≡◌, refl, ap, ◌∙◌, Bool, true, false, ◌&&◌, [], ◌∷◌, arith, if◌then◌else◌, if_elim, and_true,
  and_split, or_false, not-true, all, ◌==◌, list_beq_iff, nat_eq, list_eq, Text,
}
use eval_prompt.Prelude.Shuffle.{
  Shuffle, sorted_by, strict_by, sort_by-Shuffle, sort_by-forgets, sort_by-sorted_by, text_ltb_asym,
  text_ltb_weak, text_ltb_total, same, swap, keep_head, chain,
}
use eval_prompt.Prelude.Maps.{has_key, distinct_keys}
use eval_prompt.Indexer.{AssetSummary, AssetEntry, Assets}
use eval_prompt.Indexer.Matching.{
  SearchFilters, match_asset, summary_of, summary_less, matches, search,
}

-- Each entry is stored under the ID of its asset and of its detail.
abbrev pub keyed : Assets → Bool
keyed [] = true
keyed (e ∷ assets) = (e.1.asset.id == e.0 && e.1.detail.id == e.0) && keyed assets

less_asym : (a b : AssetSummary) → summary_less a b ≡ true → summary_less b a ≡ false
unfolding summary_less
less_asym a b h = ground (arith, text_ltb_asym a.id b.id)

less_weak :
    (a b c : AssetSummary)
    → summary_less a b ≡ false
    → summary_less b c ≡ false
    → summary_less a c ≡ false
unfolding summary_less
less_weak a b c h k = ground (arith, text_ltb_weak a.id b.id c.id)

less_total :
    (a b : AssetSummary) → summary_less a b ≡ false → summary_less b a ≡ false → a.id ≡ b.id
unfolding summary_less
less_total a b h k = ground (arith, text_ltb_total a.id b.id)

apart : AssetSummary → AssetSummary → Bool
apart s y = if summary_less s y then true else summary_less y s

apart_ids : (s y : AssetSummary) → (y.id == s.id) ≡ false → apart s y ≡ true
unfolding apart
apart_ids s y h = ground (arith, less_total s y, list_beq_iff y.id s.id)

summary_of-id : (e : AssetEntry) → (summary_of e).id ≡ e.asset.id
unfolding summary_of
summary_of-id e = refl

-- The summary of an entry that is stored under its ID has its key.
pub keyed-id :
    (e : Text × AssetEntry) (assets : Assets)
    → keyed (e ∷ assets) ≡ true
    → (summary_of e.1).id ≡ e.0
keyed-id e assets k = summary_of-id e.1 ∙ (list_beq_iff e.1.asset.id e.0).0 (first_test _ _ _ k)
  where
    first_test : (a b c : Bool) → ((a && b) && c) ≡ true → a ≡ true
    first_test a b c h = ground arith

pub keyed_detail :
    (e : Text × AssetEntry) (assets : Assets) → keyed (e ∷ assets) ≡ true → e.1.detail.id ≡ e.0
keyed_detail e assets k = (list_beq_iff e.1.detail.id e.0).0 (middle_test _ _ _ k)
  where
    middle_test : (a b c : Bool) → ((a && b) && c) ≡ true → b ≡ true
    middle_test a b c h = ground arith

pub keyed-Shuffle : {m n : Assets} → Shuffle m n → keyed m ≡ keyed n
keyed-Shuffle same = refl
keyed-Shuffle (swap {x} {y} {xs}) = ground arith
keyed-Shuffle (keep_head {x} h) =
    ap (λ b. (x.1.asset.id == x.0 && x.1.detail.id == x.0) && b) (keyed-Shuffle h)
keyed-Shuffle (chain h k) = keyed-Shuffle h ∙ keyed-Shuffle k

pub keyed_rest :
    (e : Text × AssetEntry) (assets : Assets) → keyed (e ∷ assets) ≡ true → keyed assets ≡ true
keyed_rest e assets k = second_test _ _ k
  where
    second_test : (a c : Bool) → (a && c) ≡ true → c ≡ true
    second_test a c h = ground arith

-- A summary under another ID than those of the entries stands apart from theirs.
matches-apart :
    (query : Text) (filters : SearchFilters) (s : AssetSummary) (assets : Assets)
    → keyed assets ≡ true
    → has_key s.id assets ≡ false
    → all (apart s) (matches query filters assets) ≡ true
unfolding matches has_key
matches-apart query filters s [] k h = refl
matches-apart query filters s (e ∷ assets) k h =
    let (now, later) = or_false _ _ h in
    let differs = apart_ids s (summary_of e.1) (rw (keyed-id e assets k) now) in
    let rest = matches-apart query filters s assets (keyed_rest e assets k) later in
    if_elim (λ ys. all (apart s) ys ≡ true) (match_asset e.1.detail query filters)
      (λ _. and_true _ _ differs rest) (λ _. rest)

matches-strict :
    (query : Text) (filters : SearchFilters) (assets : Assets)
    → keyed assets ≡ true
    → distinct_keys assets ≡ true
    → strict_by summary_less (matches query filters assets) ≡ true
unfolding matches apart
matches-strict query filters [] k h = refl
matches-strict query filters (e ∷ assets) k h =
    let (fresh, distinct) = and_split _ _ h in
    let apart_all =
      matches-apart query filters (summary_of e.1) assets (keyed_rest e assets k)
        (rw (keyed-id e assets k) (not-true _ fresh)) in
    let rest = matches-strict query filters assets (keyed_rest e assets k) distinct in
    if_elim (λ ys. strict_by summary_less ys ≡ true) (match_asset e.1.detail query filters)
      (λ _. and_true _ _ apart_all rest) (λ _. rest)

-- The results do not depend on the order of the map.
matches-Shuffle :
    (query : Text) (filters : SearchFilters) {m n : Assets}
    → Shuffle m n
    → Shuffle (matches query filters m) (matches query filters n)
unfolding matches
matches-Shuffle query filters same = same
matches-Shuffle query filters (swap {x} {y} {xs}) =
    branch (match_asset x.1.detail query filters) (match_asset y.1.detail query filters)
  where
    branch :
        (b c : Bool)
        → Shuffle
            (if b
              then summary_of x.1
                ∷ (if c
                    then summary_of y.1 ∷ matches query filters xs
                    else matches query filters xs)
              else if c
              then summary_of y.1 ∷ matches query filters xs
              else matches query filters xs)
            (if c
              then summary_of y.1
                ∷ (if b
                    then summary_of x.1 ∷ matches query filters xs
                    else matches query filters xs)
              else if b
              then summary_of x.1 ∷ matches query filters xs
              else matches query filters xs)
    branch true true = swap
    branch true false = same
    branch false true = same
    branch false false = same
matches-Shuffle query filters (keep_head {x} {xs} {ys} h) =
    branch (match_asset x.1.detail query filters) (matches-Shuffle query filters h)
  where
    branch :
        (b : Bool)
        → Shuffle (matches query filters xs) (matches query filters ys)
        → Shuffle
            (if b then summary_of x.1 ∷ matches query filters xs else matches query filters xs)
            (if b then summary_of x.1 ∷ matches query filters ys else matches query filters ys)
    branch true l = keep_head l
    branch false l = l
matches-Shuffle query filters (chain h l) =
    chain (matches-Shuffle query filters h) (matches-Shuffle query filters l)

-- Search gives the summaries of the matching assets, each once, the latest first and by ID where
-- the times are equal. Where every entry is stored under its ID, the list does not depend on the
-- order in which the runtime ranges over the map.
pub search_lem :
    (m n : Assets) (query : Text) (filters : SearchFilters)
    → keyed m ≡ true
    → distinct_keys m ≡ true
    → Shuffle m n
    → Shuffle (search m query filters) (matches query filters m)
      × ((sorted_by summary_less (search m query filters) ≡ true)
          × (search m query filters ≡ search n query filters))
unfolding search
search_lem m n query filters k d h = (
  sort_by-Shuffle summary_less (matches query filters m),
  (
    sort_by-sorted_by summary_less less_asym less_weak (matches query filters m),
    sort_by-forgets summary_less less_asym less_weak (matches-Shuffle query filters h)
        (matches-strict query filters m k d),
  ),
)
