-- ===== src/Indexer/Matching.antt =====
-- Search of plugins/search/search.go: the match of a query and its filters, and the sorted results.
-- The list of assets has the order of the range loop over the map.
pub mod Ignoring
use eval_prompt.Prelude.{
  ℕ, zero, suc, ◌+◌, ◌-◌, Bool, true, false, not, ◌&&◌, ◌||◌, none, List, [], ◌∷◌, ltb, leb,
  if◌then◌else◌, length, take, drop, any, ◌==◌, contains, nat_eq, list_eq, Text, is_empty,
}
use eval_prompt.Prelude.Shuffle.{sort_by, text_ltb}
use eval_prompt.Indexer.{AssetDetail, AssetSummary, AssetEntry, Assets}

pub record SearchFilters : Type 0 where
  pub repo_path : Text
  pub category : Text
  pub asset_type : Text
  pub tags : List Text
  pub state : Text
  pub label : Text

abbrev pub lower_byte : ℕ → ℕ
lower_byte c = if leb 65 c && leb c 90 then c + 32 else c

-- The loop of equalIgnoreCase over texts of one length.
unfoldable pub equal_bytes : Text → Text → Bool
equal_bytes (c ∷ a) (d ∷ b) = lower_byte c == lower_byte d && equal_bytes a b
equal_bytes _ _ = true

unfoldable pub equal_ignore_case : Text → Text → Bool
unfolding equal_bytes
equal_ignore_case a b = length a == length b && equal_bytes a b

-- The loop of containsIgnoreCase over its first `n` places.
unfoldable pub contains_from : ℕ → Text → Text → Bool
unfolding equal_ignore_case
contains_from zero s substr = false
contains_from (suc n) s substr =
    equal_ignore_case (take (length substr) s) substr || contains_from n (drop 1 s) substr

unfoldable pub contains_ignore_case : Text → Text → Bool
unfolding contains_from
contains_ignore_case s substr =
    if length substr == 0
    then true
    else if ltb (length s) (length substr)
    then false
    else contains_from (length s - length substr + 1) s substr

unfoldable pub match_query : AssetDetail → Text → Bool
unfolding contains_ignore_case
match_query detail query =
    contains_ignore_case detail.name query
    || (contains_ignore_case detail.description query
        || (any (λ tag. contains_ignore_case tag query) detail.tags
            || any (λ kw. contains_ignore_case kw query) detail.keywords))

unfoldable pub match_asset : AssetDetail → Text → SearchFilters → Bool
unfolding match_query
match_asset detail query filters =
    if not (is_empty query) && not (match_query detail query)
    then false
    else if not (is_empty filters.asset_type) && not (filters.asset_type == detail.asset_type)
    then false
    else if not (is_empty filters.state) && not (filters.state == detail.state)
    then false
    else if not (is_empty filters.category) && not (filters.category == detail.category)
    then false
    else if not (is_empty filters.tags) && not (any (λ tag. contains detail.tags tag) filters.tags)
    then false
    else true

unfoldable pub summary_of : AssetEntry → AssetSummary
summary_of entry = record {
  id = entry.asset.id;
  name = entry.asset.name;
  description = entry.asset.description;
  category = entry.asset.category;
  asset_type = entry.asset.asset_type;
  tags = entry.asset.tags;
  state = entry.asset.state;
  latest_score = elim entry.detail.snapshots [ [] ↦ none | s ∷ _ ↦ s.eval_score ];
  keywords = entry.detail.keywords;
  updated_at = entry.asset.updated_at;
}

-- The order of the results: the latest first, then by ID.
unfoldable pub summary_less : AssetSummary → AssetSummary → Bool
summary_less a b =
    if a.updated_at == b.updated_at then text_ltb a.id b.id else ltb b.updated_at a.updated_at

-- The loop of Search over the assets.
unfoldable pub matches : Text → SearchFilters → Assets → List AssetSummary
unfolding match_asset summary_of
matches query filters [] = []
matches query filters (e ∷ assets) =
    let rest = matches query filters assets in
    if match_asset e.1.detail query filters then summary_of e.1 ∷ rest else rest

unfoldable pub search : Assets → Text → SearchFilters → List AssetSummary
unfolding sort_by summary_less matches
search assets query filters = sort_by summary_less (matches query filters assets)
