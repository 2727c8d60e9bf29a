-- ===== src/Indexer/Persist.antt =====
-- The index file of plugins/search/search.go: persist and Load. The file system and encoding/json
-- are parameters; `range` is the order in which the runtime ranges over the map.
use eval_prompt.Prelude.{
  ℕ, ◌⊎◌, inl, inr, Bool, false, Option, none, some, List, [], ◌∷◌, ◌++◌, ltb, if◌then◌else◌,
  nat_eq, list_eq, Text, text, is_empty,
}
use eval_prompt.Prelude.Maps.{put_key}
use eval_prompt.Domain.FrontMatter.{EvalHistoryEntry, EvalStats, TriggerEntry, TestCase}
use eval_prompt.Indexer.{
  SnapshotSummary, LabelInfo, Asset, AssetDetail, AssetEntry, Assets, Indexer,
}

pub record PersistEntry : Type 0 where
  pub id : Text
  pub name : Text
  pub description : Text
  pub asset_type : Text
  pub tags : List Text
  pub state : Text
  pub snapshots : List SnapshotSummary
  pub category : Text
  pub eval_history : List EvalHistoryEntry
  pub eval_stats : EvalStats
  pub triggers : List TriggerEntry
  pub test_cases : List TestCase
  pub recommended_snapshot_id : Text
  pub labels : List LabelInfo
  pub asset_path : Text
  pub created_at : ℕ
  pub updated_at : ℕ

-- Opening the index file for reading.
pub data Opened : Type 0 where
  not_exist : Opened
  open_failed : Text → Opened
  opened : Text → Opened

abbrev pub Sorting : Type 0
Sorting = (SnapshotSummary → SnapshotSummary → Bool) → List SnapshotSummary → List SnapshotSummary

-- What persist and Load ask of the system. MkdirAll and Create give an error; Encode gives what it
-- writes and an error. sort.Slice is a function of its test.
pub record IndexFiles : Type 0 where
  pub mkdir_all : Text → Option Text
  pub create : Text → Option Text
  pub encode : List PersistEntry → Text × Option Text
  pub decode : Text → List PersistEntry ⊎ Text
  pub sort_slice : Sorting

unfoldable pub persist_entry : AssetEntry → PersistEntry
persist_entry entry = record {
  id = entry.detail.id;
  name = entry.detail.name;
  description = entry.detail.description;
  asset_type = entry.detail.asset_type;
  tags = entry.detail.tags;
  state = entry.detail.state;
  snapshots = entry.detail.snapshots;
  category = entry.detail.category;
  eval_history = entry.detail.eval_history;
  eval_stats = entry.detail.eval_stats;
  triggers = entry.detail.triggers;
  test_cases = entry.detail.test_cases;
  recommended_snapshot_id = entry.detail.recommended_snapshot_id;
  labels = entry.detail.labels;
  asset_path = entry.detail.asset_path;
  created_at = entry.asset.created_at;
  updated_at = entry.asset.updated_at;
}

-- The loop of persist over the assets.
unfoldable pub persist_entries : Assets → List PersistEntry
unfolding persist_entry
persist_entries [] = []
persist_entries (e ∷ assets) = persist_entry e.1 ∷ persist_entries assets

-- The index file after the call, and the error. Create empties a file that is there.
unfoldable pub persist : IndexFiles → (Assets → Assets) → Indexer → Opened → Opened × Option Text
unfolding persist_entries
persist files range ix file =
    if is_empty ix.persist_dir then (file, none) else elim (files.mkdir_all ix.persist_dir) [
      | some err ↦ (file, some (text "create persist dir: " ++ err))
      | none ↦ elim (files.create ix.persist_dir) [
        | some err ↦ (file, some (text "create index file: " ++ err))
        | none ↦
            let (written, err) = files.encode (persist_entries (range ix.assets)) in
            (opened written, err)
      ]
    ]

abbrev pub later : SnapshotSummary → SnapshotSummary → Bool
later a b = ltb b.created_at a.created_at

unfoldable pub loaded_asset : PersistEntry → Asset
loaded_asset pe = record {
  id = pe.id;
  name = pe.name;
  description = pe.description;
  asset_type = pe.asset_type;
  category = [];
  tags = pe.tags;
  content_hash = [];
  file_path = [];
  repo_path = [];
  asset_path = pe.asset_path;
  state = pe.state;
  created_at = pe.created_at;
  updated_at = pe.updated_at;
}

-- The snapshots are sorted by the creation time, the latest first.
unfoldable pub loaded_detail : Sorting → PersistEntry → AssetDetail
loaded_detail sort pe = record {
  id = pe.id;
  name = pe.name;
  description = pe.description;
  asset_type = pe.asset_type;
  tags = pe.tags;
  state = pe.state;
  snapshots = sort later pe.snapshots;
  labels = pe.labels;
  category = pe.category;
  eval_history = pe.eval_history;
  eval_stats = pe.eval_stats;
  triggers = pe.triggers;
  test_cases = pe.test_cases;
  recommended_snapshot_id = pe.recommended_snapshot_id;
  keywords = [];
  asset_path = pe.asset_path;
  main = [];
  content_hash = [];
  is_external = false;
}

-- The loop of Load over the entries of the file.
unfoldable pub load_entries : Sorting → List PersistEntry → Assets → Assets
unfolding loaded_asset loaded_detail put_key
load_entries sort [] assets = assets
load_entries sort (pe ∷ pes) assets =
    load_entries sort pes
      (put_key pe.id (record { asset = loaded_asset pe; detail = loaded_detail sort pe }) assets)

unfoldable pub load : IndexFiles → Opened → Indexer → Indexer × Option Text
unfolding load_entries
load files file ix = if is_empty ix.persist_dir then (ix, none) else elim file [
  | not_exist ↦ (ix, none)
  | open_failed err ↦ (ix, some (text "open index file: " ++ err))
  | opened content ↦ elim (files.decode content) [
    | inr err ↦ (ix, some (text "decode index: " ++ err))
    | inl pes ↦ (record ix { assets = load_entries files.sort_slice pes ix.assets }, none)
  ]
]
