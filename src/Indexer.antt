-- ===== src/Indexer.antt =====
-- The index of assets in memory: plugins/search/search.go, with the records of
-- internal/service/interfaces.go that it keeps. The locks are left out: each operation holds the
-- lock for its whole body.
pub mod Matching
pub mod Persist
pub mod Reconcile
pub mod Store
pub mod Order
pub mod RoundTrip
pub mod Counts
pub mod Reconciled
pub mod Invariant
mod Examples
use eval_prompt.Prelude.{
  ℕ, ◌⊎◌, inl, inr, Bool, false, Option, none, some, List, [], ◌++◌, nat_eq, list_eq, Text, text,
}
use eval_prompt.Prelude.Values.{Fraction}
use eval_prompt.Prelude.Maps.{get_key, put_key, delete_key}
use eval_prompt.Domain.FrontMatter.{EvalHistoryEntry, EvalStats, TriggerEntry, TestCase}

pub record SnapshotSummary : Type 0 where
  pub version : Text
  pub commit_hash : Text
  pub author : Text
  pub reason : Text
  pub eval_score : Option Fraction
  pub created_at : ℕ

pub record LabelInfo : Type 0 where
  pub name : Text
  pub snapshot_id : Text
  pub updated_at : ℕ

-- service.Asset. A zero time is the tick 0.
pub record Asset : Type 0 where
  pub id : Text
  pub name : Text
  pub description : Text
  pub asset_type : Text
  pub category : Text
  pub tags : List Text
  pub content_hash : Text
  pub file_path : Text
  pub repo_path : Text
  pub asset_path : Text
  pub state : Text
  pub created_at : ℕ
  pub updated_at : ℕ

pub record AssetDetail : Type 0 where
  pub id : Text
  pub name : Text
  pub description : Text
  pub asset_type : Text
  pub tags : List Text
  pub state : Text
  pub snapshots : List SnapshotSummary
  pub labels : List LabelInfo
  pub category : Text
  pub eval_history : List EvalHistoryEntry
  pub eval_stats : EvalStats
  pub triggers : List TriggerEntry
  pub test_cases : List TestCase
  pub recommended_snapshot_id : Text
  pub keywords : List Text
  pub asset_path : Text
  pub main : Text
  pub content_hash : Text
  pub is_external : Bool

pub record AssetSummary : Type 0 where
  pub id : Text
  pub name : Text
  pub description : Text
  pub category : Text
  pub asset_type : Text
  pub tags : List Text
  pub state : Text
  pub latest_score : Option Fraction
  pub keywords : List Text
  pub updated_at : ℕ

pub record AssetEntry : Type 0 where
  pub asset : Asset
  pub detail : AssetDetail

abbrev pub Assets : Type 0
Assets = List (Text × AssetEntry)

-- `git_bridge` is the RepoPath of the bridge, where there is one.
pub record Indexer : Type 0 where
  pub assets : Assets
  pub summaries : List AssetSummary
  pub git_bridge : Option Text
  pub persist_dir : Text

unfoldable pub new_indexer : Indexer
new_indexer = record { assets = []; summaries = []; git_bridge = none; persist_dir = [] }

unfoldable pub set_git_bridge : Text → Indexer → Indexer
set_git_bridge bridge ix = record ix { git_bridge = some bridge }

unfoldable pub set_persist_dir : Text → Indexer → Indexer
set_persist_dir dir ix = record ix { persist_dir = dir }

unfoldable pub get_by_id : Indexer → Text → AssetDetail ⊎ Text
unfolding get_key
get_by_id ix id = elim (get_key id ix.assets) [
  | none ↦ inr (text "asset not found: " ++ id)
  | some entry ↦ inl entry.detail
]

-- The detail that Save makes of an asset.
unfoldable pub saved_detail : Asset → AssetDetail
saved_detail a = record {
  id = a.id;
  name = a.name;
  description = a.description;
  asset_type = a.asset_type;
  tags = a.tags;
  state = a.state;
  snapshots = [];
  labels = [];
  category = a.category;
  eval_history = [];
  eval_stats = [];
  triggers = [];
  test_cases = [];
  recommended_snapshot_id = [];
  keywords = [];
  asset_path = a.asset_path;
  main = [];
  content_hash = [];
  is_external = false;
}

unfoldable pub save : Asset → Indexer → Indexer
unfolding saved_detail put_key
save a ix = record ix {
  assets = put_key a.id (record { asset = a; detail = saved_detail a }) ix.assets;
}

unfoldable pub delete : Text → Indexer → Indexer
unfolding delete_key
delete id ix = record ix { assets = delete_key id ix.assets }

unfoldable pub re_init : Text → Indexer → Indexer
re_init path ix = record ix {
  assets = [];
  summaries = [];
  git_bridge = elim ix.git_bridge [ none ↦ none | some _ ↦ some path ];
}
