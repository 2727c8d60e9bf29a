-- ===== src/Indexer/Reconcile.antt =====
-- Reconcile of plugins/search/reconcile.go: the scan of the registry files of a repository, and
-- the removal of the assets that the scan did not find. buildFileTree is left out, since its result
-- is dropped.
use eval_prompt.Prelude.{
  ℕ, ◌+◌, ◌-◌, ◌⊎◌, inl, inr, Bool, true, false, not, ◌&&◌, Option, none, some, List, [], ◌∷◌, ◌++◌,
  if◌then◌else◌, length, ◌==◌, contains, nat_eq, list_eq, Text, text, is_empty,
}
use eval_prompt.Prelude.Strings.{has_suffix, trim_suffix}
use eval_prompt.Prelude.Maps.{has_key, put_key, keep_keys}
use eval_prompt.Domain.Errors.{Failure}
use eval_prompt.Domain.AssetFile.{AssetYaml, resolve_main, parse_asset_yaml}
use eval_prompt.Indexer.{AssetEntry, Assets, Indexer}
use eval_prompt.Indexer.Persist.{Opened, IndexFiles, persist}

-- os.Stat: the error, or whether the path is a directory.
pub data Stat : Type 0 where
  stat_missing : Stat
  stat_failed : Text → Stat
  stat_found : Bool → Stat

pub record DirEntry : Type 0 where
  pub name : Text
  pub is_dir : Bool

-- What the scan asks of the system: filepath.Join, os.Stat, os.ReadDir, os.ReadFile, yaml.Unmarshal,
-- the text of an error, and os.UserHomeDir.
pub record RepoFiles : Type 0 where
  pub join : List Text → Text
  pub stat : Text → Stat
  pub read_dir : Text → List DirEntry ⊎ Text
  pub read_file : Text → Text ⊎ Text
  pub unmarshal : Text → AssetYaml ⊎ Text
  pub error_text : Failure → Text
  pub home : Text ⊎ Text

pub record ReconcileReport : Type 0 where
  pub added : ℕ
  pub updated : ℕ
  pub deleted : ℕ
  pub errors : List Text

-- What the scan changes: the assets, the report and the valid IDs.
pub record Scan : Type 0 where
  pub assets : Assets
  pub report : ReconcileReport
  pub valid : List Text

abbrev pub asset_types : List Text
asset_types =
    text "prompt"
    ∷ text "skill"
    ∷ text "agent"
    ∷ text "mcp"
    ∷ text "workflow"
    ∷ text "knowledge"
    ∷ []

unfoldable pub add_error : Text → Scan → Scan
add_error err sc = record sc {
  report = record sc.report { errors = sc.report.errors ++ (err ∷ []) };
}

-- The registry file of an asset, its main path, and whether that is outside the repository.
unfoldable pub read_asset : RepoFiles → Text → Text → (AssetYaml × (Text × Bool)) ⊎ Text
unfolding parse_asset_yaml resolve_main
read_asset files repo_path asset_path =
    if is_empty repo_path
    then inr (text "repo path is empty")
    else elim (files.read_file (files.join (repo_path ∷ asset_path ∷ []))) [
      | inr err ↦ inr (text "read asset.yaml: " ++ err)
      | inl content ↦ elim (parse_asset_yaml files.unmarshal files.error_text content) [
        | inr err ↦ inr (text "parse asset.yaml: " ++ err)
        | inl ay ↦ elim (resolve_main files.home ay repo_path) [
          | inr err ↦ inr (text "resolve main path: " ++ err)
          | inl resolved ↦ inl (ay, resolved)
        ]
      ]
    ]

-- The state of the entry: an asset whose main file is missing is unavailable.
unfoldable pub scanned_state : RepoFiles → Text → AssetYaml → Text × Bool → Text
scanned_state files repo_path ay (main_resolved, is_external) =
    if not is_external && (not (ay.state == text "deleted") && not (ay.state == text "unavailable"))
    then elim (files.stat (files.join (repo_path ∷ main_resolved ∷ []))) [
      | stat_missing ↦ text "unavailable"
      | _ ↦ ay.state
    ]
    else ay.state

unfoldable pub scanned_entry : RepoFiles → Text → Text → Text → AssetYaml → Text × Bool → AssetEntry
unfolding scanned_state
scanned_entry files repo_path asset_path asset_id ay resolved = record {
  asset = record {
    id = asset_id;
    name = ay.name;
    description = ay.description;
    asset_type = ay.asset_type;
    category = ay.category;
    tags = ay.tags;
    content_hash = [];
    file_path = resolved.0;
    repo_path = repo_path;
    asset_path = asset_path;
    state = scanned_state files repo_path ay resolved;
    created_at = elim ay.metadata [ none ↦ 0 | some m ↦ m.created_at ];
    updated_at = elim ay.metadata [ none ↦ 0 | some m ↦ m.updated_at ];
  };
  detail = record {
    id = asset_id;
    name = ay.name;
    description = ay.description;
    asset_type = ay.asset_type;
    tags = ay.tags;
    state = scanned_state files repo_path ay resolved;
    snapshots = [];
    labels = [];
    category = ay.category;
    eval_history = [];
    eval_stats = [];
    triggers = [];
    test_cases = [];
    recommended_snapshot_id = [];
    keywords = [];
    asset_path = asset_path;
    main = [];
    content_hash = [];
    is_external = false;
  };
}

-- The entry under the ID, and the count of the added or of the updated assets.
unfoldable pub store_entry : Text → AssetEntry → Scan → Scan
unfolding put_key has_key
store_entry asset_id entry sc = record sc {
  assets = put_key asset_id entry sc.assets;
  report =
      if has_key asset_id sc.assets
      then record sc.report { updated = sc.report.updated + 1 }
      else record sc.report { added = sc.report.added + 1 };
}

unfoldable pub reconcile_asset : RepoFiles → Text → Text → Text → Scan → Scan ⊎ Text
unfolding read_asset scanned_entry store_entry
reconcile_asset files repo_path asset_path asset_id sc =
    elim (read_asset files repo_path asset_path) [
      | inr err ↦ inr err
      | inl (ay, resolved) ↦
          inl (
            store_entry asset_id (scanned_entry files repo_path asset_path asset_id ay resolved) sc)
    ]

abbrev pub is_registry : DirEntry → Bool
is_registry entry = not entry.is_dir && has_suffix entry.name (text ".yaml")

abbrev pub registry_id : DirEntry → Text
registry_id entry = trim_suffix entry.name (text ".yaml")

-- The path of a registry file in the repository.
abbrev pub registry_path : RepoFiles → Text → DirEntry → Text
registry_path files asset_type entry =
    files.join (text "assets" ∷ (asset_type ++ text "s") ∷ entry.name ∷ [])

-- The body of the loop over the entries of a directory.
unfoldable pub scan_entry : RepoFiles → Text → Text → DirEntry → Scan → Scan
unfolding reconcile_asset add_error
scan_entry files repo_path asset_type entry sc =
    if is_registry entry
    then elim (reconcile_asset files repo_path (registry_path files asset_type entry)
        (registry_id entry) sc) [
          | inr err ↦ add_error (text "reconcile " ++ (registry_id entry ++ (text ": " ++ err))) sc
          | inl sc' ↦ record sc' { valid = sc'.valid ++ (registry_id entry ∷ []) }
        ]
    else sc

unfoldable pub scan_entries : RepoFiles → Text → Text → List DirEntry → Scan → Scan
unfolding scan_entry
scan_entries files repo_path asset_type [] sc = sc
scan_entries files repo_path asset_type (entry ∷ entries) sc =
    scan_entries files repo_path asset_type entries (scan_entry files repo_path asset_type entry sc)

unfoldable pub scan_assets_type_dir : RepoFiles → Text → Text → Text → Scan → Scan × Option Text
unfolding scan_entries
scan_assets_type_dir files assets_dir asset_type repo_path sc = elim (files.stat assets_dir) [
  | stat_missing ↦ (sc, none)
  | stat_failed err ↦ (sc, some (text "stat assets directory: " ++ err))
  | stat_found false ↦ (sc, none)
  | stat_found true ↦ elim (files.read_dir assets_dir) [
    | inr err ↦ (sc, some (text "read assets directory: " ++ err))
    | inl entries ↦ (scan_entries files repo_path asset_type entries sc, none)
  ]
]

-- The loop over the asset types.
unfoldable pub scan_types : RepoFiles → Text → List Text → Scan → Scan
unfolding scan_assets_type_dir add_error
scan_types files repo_path [] sc = sc
scan_types files repo_path (asset_type ∷ types) sc =
    let assets_dir = files.join (repo_path ∷ text "assets" ∷ (asset_type ++ text "s") ∷ []) in
    let (sc', err) = scan_assets_type_dir files assets_dir asset_type repo_path sc in
    scan_types files repo_path types (elim err [ none ↦ sc' | some e ↦ add_error e sc' ])

abbrev pub empty_report : ReconcileReport
empty_report = record { added = 0; updated = 0; deleted = 0; errors = [] }

-- The loop that deletes what was not found.
unfoldable pub remove_stale : Scan → Assets × ReconcileReport
unfolding keep_keys
remove_stale sc =
    let kept = keep_keys (contains sc.valid) sc.assets in
    (kept, record sc.report { deleted = sc.report.deleted + (length sc.assets - length kept) })

-- The index, the report and the index file after the call.
unfoldable pub reconcile :
    RepoFiles
    → IndexFiles
    → (Assets → Assets)
    → Indexer
    → Opened
    → Indexer × (ReconcileReport × Opened)
unfolding scan_types remove_stale persist
reconcile files index_files range ix file = elim ix.git_bridge [
  | none ↦ (ix, (empty_report, file))
  | some repo_path ↦
      if is_empty repo_path
      then (ix, (empty_report, file))
      else let sc =
          scan_types files repo_path asset_types
            (record { assets = ix.assets; report = empty_report; valid = [] }) in
        let (assets, report) = remove_stale sc in
        let ix' : Indexer = record ix { assets = assets } in
        let (file', err) = persist index_files range ix' file in
        (
          ix',
          (
            elim err [
              | none ↦ report
              | some e ↦ record report {
                errors = report.errors ++ ((text "persist index: " ++ e) ∷ []);
              }
            ],
            file',
          ),
        )
]
