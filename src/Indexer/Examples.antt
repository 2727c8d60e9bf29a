-- ===== src/Indexer/Examples.antt =====
-- Runs of the index of plugins/search.
use eval_prompt.Prelude.{
  ℕ, ◌+◌, ◌≡◌, refl, inl, inr, true, false, none, some, List, [], ◌∷◌, ◌++◌, map, arith,
  if◌then◌else◌, length, ◌==◌, nat_eq, list_eq, Text, text,
}
use eval_prompt.Prelude.Shuffle.{
  Shuffle, Shuffle-sym, insert_by, sort_by, sorted_by, sort_by-Shuffle, sort_by-sorted_by, swap,
}
use eval_prompt.Prelude.Maps.{get_key, has_key, put_key, keep_keys}
use eval_prompt.Indexer.{
  Asset, AssetDetail, AssetSummary, AssetEntry, Assets, Indexer, new_indexer, set_persist_dir,
  get_by_id, saved_detail,
}
use eval_prompt.Prelude.Strings.{
  has_prefix, strip_prefix, trim_prefix, has_suffix, trim_suffix, contains_text,
}
use eval_prompt.Prelude.Spaces.{space_before, space_behind, skip_spaces, trim_space}
use eval_prompt.Indexer.Matching.Ignoring.{lower, contains_ignore_case-contains_text}
use eval_prompt.Indexer.Matching.{
  SearchFilters, contains_ignore_case, match_asset, summary_of, summary_less, matches, search,
}
use eval_prompt.Indexer.Order.{search_lem}
use eval_prompt.Indexer.Store.{
  Request, run, saved_asset, run_refines, IsValid, save_asset, delete_id,
}
use eval_prompt.Indexer.Persist.{IndexFiles, persist_entries, persist, later, load, not_exist}
use eval_prompt.Indexer.Invariant.{changes, changes-IsValid, request, bridge_set}
use eval_prompt.Indexer.Reconcile.{
  RepoFiles, add_error, read_asset, scanned_state, scanned_entry, store_entry, reconcile_asset,
  scan_entry, scan_entries, scan_assets_type_dir, scan_types, remove_stale, reconcile, stat_missing,
  stat_found,
}
use eval_prompt.Indexer.Reconciled.{reconcile_lem, reconcile_again, reconcile_forgets}
use eval_prompt.Indexer.Counts.{listed, is_bare}
use eval_prompt.Domain.AssetFile.{
  AssetYaml, is_valid_asset_type, is_valid_state, is_valid_category, validate_asset_yaml,
  default_state, default_category, resolve_main, new_asset_yaml, parse_asset_yaml,
}
use eval_prompt.Indexer.RoundTrip.{Recovers, load-persist}

abbrev asset_at : Text → ℕ → Asset
asset_at id now = record {
  id = id;
  name = id;
  description = [];
  asset_type = text "prompt";
  category = text "content";
  tags = [];
  content_hash = [];
  file_path = [];
  repo_path = [];
  asset_path = [];
  state = text "draft";
  created_at = 1;
  updated_at = now;
}

-- An asset with a snapshot.
abbrev entry_at : Text → ℕ → AssetEntry
entry_at id now = record {
  asset = asset_at id now;
  detail = record (saved_detail (asset_at id now)) {
    snapshots =
        record {
          version = text "v1";
          commit_hash = [];
          author = [];
          reason = [];
          eval_score = none;
          created_at = 1;
        }
        ∷ [];
  };
}

abbrev two : Assets
two = (text "b", entry_at (text "b") 3) ∷ (text "a", entry_at (text "a") 3) ∷ []

abbrev two_swapped : Assets
two_swapped = (text "a", entry_at (text "a") 3) ∷ (text "b", entry_at (text "b") 3) ∷ []

abbrev index : Indexer
index = record {
  assets = two;
  summaries = [];
  git_bridge = some (text "/r");
  persist_dir = text "/p";
}

index-IsValid : IsValid index
unfolding saved_detail has_key
index-IsValid = (refl, refl)

abbrev no_filters : SearchFilters
no_filters = record {
  repo_path = [];
  category = [];
  asset_type = [];
  tags = [];
  state = [];
  label = [];
}

-- The asset with the smaller ID comes first where the times are equal.
search_by_id :
    map (λ (s : AssetSummary). s.id) (search two [] no_filters) ≡ text "a" ∷ text "b" ∷ []
unfolding search matches match_asset summary_of sort_by insert_by summary_less
search_by_id = refl

contains_ignore_case-contains_text_example :
    contains_ignore_case (text "a Prompt") (text "pROM")
    ≡ contains_text (lower (text "a Prompt")) (lower (text "pROM"))
contains_ignore_case-contains_text_example =
    contains_ignore_case-contains_text (text "a Prompt") (text "pROM")

search_lem_example :
    Shuffle (search two (text "A") no_filters) (matches (text "A") no_filters two)
    × ((sorted_by summary_less (search two (text "A") no_filters) ≡ true)
        × (search two (text "A") no_filters ≡ search two_swapped (text "A") no_filters))
search_lem_example =
    search_lem two two_swapped (text "A") no_filters index-IsValid.0 index-IsValid.1 swap

abbrev requests : List Request
requests =
    save_asset (asset_at (text "a") 1)
    ∷ save_asset (asset_at (text "b") 2)
    ∷ save_asset (asset_at (text "a") 3)
    ∷ delete_id (text "b")
    ∷ []

run_refines_example :
    get_by_id (run requests new_indexer) (text "a") ≡ elim (saved_asset requests (text "a") none) [
      | none ↦ inr (text "asset not found: " ++ text "a")
      | some a ↦ inl (saved_detail a)
    ]
unfolding new_indexer
run_refines_example = run_refines requests new_indexer (text "a") refl

changes-IsValid_example : IsValid (
    changes
      (request (save_asset (asset_at (text "a") 1)) ∷ bridge_set (text "/r") ∷ [])
      new_indexer)
changes-IsValid_example =
    changes-IsValid (request (save_asset (asset_at (text "a") 1)) ∷ bridge_set (text "/r") ∷ [])

-- An encoding of these two assets.
abbrev index_files : IndexFiles
index_files = record {
  mkdir_all = λ _. none;
  create = λ _. none;
  encode = λ _. (text "[]", none);
  decode = λ _. inl (persist_entries two_swapped);
  sort_slice = sort_by;
}

abbrev swapped : Assets → Assets
swapped _ = two_swapped

load-persist_example : Recovers (get_by_id index (text "a")) (
    get_by_id
      (load index_files
        (persist index_files swapped index not_exist).0
        (set_persist_dir (text "/p") new_indexer)).0
      (text "a"))
unfolding set_persist_dir new_indexer
load-persist_example =
    load-persist index_files swapped index (set_persist_dir (text "/p") new_indexer) not_exist
      (text "[]") (text "a") index-IsValid swap refl refl refl refl refl refl refl
      (λ xs. (
        Shuffle-sym (sort_by-Shuffle later xs),
        sort_by-sorted_by later (λ x y h. ground arith) (λ x y z h k. ground arith) xs,
      ))

abbrev ay : AssetYaml
ay = new_asset_yaml 5 (text "prompt") (text "A") (text "prompts/a.md")

-- A repository with one prompt, `a`.
abbrev repo : RepoFiles
repo = record {
  join = λ parts. elim parts [ _ ∷ _ ∷ last ∷ _ ↦ last | _ ↦ [] ];
  stat = λ path. if path == text "prompts" then stat_found true else stat_missing;
  read_dir = λ _. inl (record { name = text "a.yaml"; is_dir = false } ∷ []);
  read_file = λ _. inl (text "x");
  unmarshal = λ _. inl ay;
  error_text = λ _. [];
  home = inr [];
}

reconcile_lem_example :
    let r = reconcile repo index_files swapped index not_exist in
    ((id : Text) → has_key id r.0.assets ≡ listed repo (text "/r") id)
    × (length r.0.assets + r.1.0.deleted ≡ length index.assets + r.1.0.added)
reconcile_lem_example = reconcile_lem repo index_files swapped index not_exist (text "/r") refl refl

reconcile_again_example :
    let first = reconcile repo index_files swapped index not_exist in
    let second = reconcile repo index_files swapped first.0 first.1.1 in
    (second.1.0.added ≡ 0)
    × ((second.1.0.deleted ≡ 0)
        × ((id : Text) → has_key id second.0.assets ≡ has_key id first.0.assets))
reconcile_again_example =
    reconcile_again repo index_files swapped index not_exist (text "/r") refl refl

abbrev left_detail : AssetDetail
left_detail = record (saved_detail (asset_at (text "a") 5)) {
  name = text "A";
  asset_path = text "a.yaml";
  state = text "unavailable";
}

left_detail_found :
    get_by_id (reconcile repo index_files swapped index not_exist).0 (text "a") ≡ inl left_detail
unfolding get_by_id reconcile scan_types remove_stale persist scan_assets_type_dir scan_entries
    scan_entry reconcile_asset add_error read_asset scanned_entry store_entry scanned_state
    parse_asset_yaml resolve_main validate_asset_yaml default_state default_category
    is_valid_asset_type is_valid_state is_valid_category trim_space skip_spaces space_before
    space_behind has_prefix trim_prefix strip_prefix has_suffix trim_suffix keep_keys get_key
    put_key has_key saved_detail new_asset_yaml
left_detail_found = refl

reconcile_forgets_example : is_bare left_detail ≡ true
reconcile_forgets_example =
    reconcile_forgets repo index_files swapped index not_exist (text "/r") (text "a") left_detail
      refl refl left_detail_found
