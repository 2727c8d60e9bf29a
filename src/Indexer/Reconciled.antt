-- ===== src/Indexer/Reconciled.antt =====
-- What Reconcile of plugins/search/reconcile.go leaves in the index, and what it reports.
use eval_prompt.Prelude.{
  ◌+◌, ◌≡◌, refl, sym, ap, ◌∙◌, ◌⊎◌, inl, inr, Bool, true, false, ◌&&◌, ◌||◌, Option, none, some,
  List, [], ◌∷◌, ◌++◌, arith, if◌then◌else◌, Bool-cases, Option-cases, length, any, length-keep_le,
  contains, nat_eq, list_eq, Text, text, is_empty,
}
use eval_prompt.Prelude.Maps.{
  get_key, has_key, keep_keys, get_key-keep_keys, has_key-keep_keys, keep_keys_all,
  distinct_keys-keep_keys,
}
use eval_prompt.Indexer.{AssetDetail, AssetEntry, Assets, Indexer, get_by_id}
use eval_prompt.Indexer.Persist.{Opened, IndexFiles, persist}
use eval_prompt.Indexer.Reconcile.{
  Stat, DirEntry, RepoFiles, ReconcileReport, Scan, asset_types, add_error, scan_entries,
  scan_assets_type_dir, scan_types, empty_report, remove_stale, reconcile, stat_missing,
  stat_failed, stat_found,
}
use eval_prompt.Indexer.Store.{IsValid, keyed-keep_keys}
use eval_prompt.Indexer.Counts.{
  registers, listed_in, listed, is_bare, Scanned, Scanned-same, Scanned-chain, scan_entries-Scanned,
}

-- The scan of a directory, and the IDs found there, by what the system answers.
abbrev dir_scan : RepoFiles → Text → Text → Scan → Stat → List DirEntry ⊎ Text → Scan × Option Text
dir_scan files repo_path asset_type sc st dir = elim st [
  | stat_missing ↦ (sc, none)
  | stat_failed err ↦ (sc, some (text "stat assets directory: " ++ err))
  | stat_found false ↦ (sc, none)
  | stat_found true ↦ elim dir [
    | inr err ↦ (sc, some (text "read assets directory: " ++ err))
    | inl entries ↦ (scan_entries files repo_path asset_type entries sc, none)
  ]
]

abbrev dir_lists : RepoFiles → Text → Text → Stat → List DirEntry ⊎ Text → Text → Bool
dir_lists files repo_path asset_type st dir id = elim st [
  | stat_found true ↦ elim dir [
    | inl entries ↦ any (registers files repo_path asset_type id) entries
    | inr _ ↦ false
  ]
  | _ ↦ false
]

abbrev with_error : Scan × Option Text → Scan
with_error r = elim r.1 [ none ↦ r.0 | some e ↦ add_error e r.0 ]

dir_scan-Scanned :
    (files : RepoFiles) (repo_path asset_type : Text) (sc : Scan) (st : Stat)
    (dir : List DirEntry ⊎ Text)
    → Scanned
        (dir_lists files repo_path asset_type st dir)
        sc
        (with_error (dir_scan files repo_path asset_type sc st dir))
unfolding add_error
dir_scan-Scanned files repo_path asset_type sc stat_missing dir =
    Scanned-same sc sc refl refl refl refl
dir_scan-Scanned files repo_path asset_type sc (stat_failed err) dir =
    Scanned-same sc (add_error (text "stat assets directory: " ++ err) sc) refl refl refl refl
dir_scan-Scanned files repo_path asset_type sc (stat_found false) dir =
    Scanned-same sc sc refl refl refl refl
dir_scan-Scanned files repo_path asset_type sc (stat_found true) (inr err) =
    Scanned-same sc (add_error (text "read assets directory: " ++ err) sc) refl refl refl refl
dir_scan-Scanned files repo_path asset_type sc (stat_found true) (inl entries) =
    scan_entries-Scanned files repo_path asset_type entries sc

scan_types-Scanned :
    (files : RepoFiles) (repo_path : Text) (types : List Text) (sc : Scan)
    → Scanned
        (λ id. any (λ t. listed_in files repo_path t id) types)
        sc
        (scan_types files repo_path types sc)
unfolding scan_types scan_assets_type_dir
scan_types-Scanned files repo_path [] sc = Scanned-same sc sc refl refl refl refl
scan_types-Scanned files repo_path (t ∷ types) sc =
    let dir = files.join (repo_path ∷ text "assets" ∷ (t ++ text "s") ∷ []) in
    let sc' = with_error (dir_scan files repo_path t sc (files.stat dir) (files.read_dir dir)) in
    Scanned-chain (listed_in files repo_path t)
      (λ id. any (λ t. listed_in files repo_path t id) types) sc sc'
      (scan_types files repo_path types sc')
      (dir_scan-Scanned files repo_path t sc (files.stat dir) (files.read_dir dir))
      (scan_types-Scanned files repo_path types sc')

abbrev start : Assets → Scan
start assets = record { assets = assets; report = empty_report; valid = [] }

-- The scan of a whole repository.
abbrev whole : RepoFiles → Text → Assets → Scan
whole files repo_path assets = scan_types files repo_path asset_types (start assets)

-- What Reconcile leaves and counts, where the bridge has a path.
reconcile-whole :
    (files : RepoFiles) (index_files : IndexFiles) (range : Assets → Assets) (ix : Indexer)
    (file : Opened) (repo_path : Text)
    → ix.git_bridge ≡ some repo_path
    → is_empty repo_path ≡ false
    → let r = reconcile files index_files range ix file in
      let (kept, report) = remove_stale (whole files repo_path ix.assets) in
      (r.0.assets ≡ kept) × ((r.1.0.added ≡ report.added) × (r.1.0.deleted ≡ report.deleted))
unfolding reconcile
reconcile-whole files index_files range ix file repo_path b e =
    let (kept, report) = remove_stale (whole files repo_path ix.assets) in
    rw (b, e)
      (refl, by_error report (persist index_files range (record ix { assets = kept }) file).1)
  where
    by_error :
        (report : ReconcileReport) (err : Option Text)
        → let written : ReconcileReport = elim err [
          | none ↦ report
          | some e ↦ record report {
            errors = report.errors ++ ((text "persist index: " ++ e) ∷ []);
          }
        ] in
          (written.added ≡ report.added) × (written.deleted ≡ report.deleted)
    by_error report none = (refl, refl)
    by_error report (some e) = (refl, refl)

-- The kept assets are those of the valid IDs, and nothing is lost from the count.
remove_stale-counts :
    (sc : Scan)
    → sc.report.deleted ≡ 0
    → length (remove_stale sc).0 + (remove_stale sc).1.deleted ≡ length sc.assets
unfolding remove_stale keep_keys
remove_stale-counts sc h =
    omega (arith, h, length-keep_le (λ (e : Text × AssetEntry). contains sc.valid e.0) sc.assets)

-- Where a bridge has a path, Reconcile leaves exactly the assets that have a registry file which
-- can be read, parsed and resolved, in the directory of some type: and the assets that it leaves
-- and those that it deletes are as many as the assets of before and those that it adds.
pub reconcile_lem :
    (files : RepoFiles) (index_files : IndexFiles) (range : Assets → Assets) (ix : Indexer)
    (file : Opened) (repo_path : Text)
    → ix.git_bridge ≡ some repo_path
    → is_empty repo_path ≡ false
    → let r = reconcile files index_files range ix file in
      ((id : Text) → has_key id r.0.assets ≡ listed files repo_path id)
      × (length r.0.assets + r.1.0.deleted ≡ length ix.assets + r.1.0.added)
unfolding remove_stale
reconcile_lem files index_files range ix file repo_path b e =
    let sc = whole files repo_path ix.assets in
    let s = scan_types-Scanned files repo_path asset_types (start ix.assets) in
    let (a, (n, d)) = reconcile-whole files index_files range ix file repo_path b e in
    (
      λ id.
          ap (has_key id) a
          ∙ (has_key-keep_keys id (contains sc.valid) sc.assets
              ∙ both_known _ _ _ _ (s.finds id) (s.keeps id)),
      omega (arith, ap length a, n, d, s.counts, remove_stale-counts sc s.deletes),
    )
  where
    both_known : (v h before p : Bool) → v ≡ p → h ≡ (before || p) → (v && h) ≡ p
    both_known v h before p x y = ground arith

nothing_stale :
    (sc : Scan)
    → sc.report.deleted ≡ 0
    → ((id : Text) → has_key id sc.assets ≡ true → contains sc.valid id ≡ true)
    → (remove_stale sc).1.deleted ≡ 0
unfolding remove_stale
nothing_stale sc h v = omega (arith, h, ap length (keep_keys_all (contains sc.valid) sc.assets v))

reconcile-git_bridge :
    (files : RepoFiles) (index_files : IndexFiles) (range : Assets → Assets) (ix : Indexer)
    (file : Opened) (repo_path : Text)
    → ix.git_bridge ≡ some repo_path
    → is_empty repo_path ≡ false
    → (reconcile files index_files range ix file).0.git_bridge ≡ some repo_path
unfolding reconcile
reconcile-git_bridge files index_files range ix file repo_path b e = rw (b, e) refl

-- A second Reconcile of the same files adds and deletes nothing, and leaves the same IDs.
pub reconcile_again :
    (files : RepoFiles) (index_files : IndexFiles) (range : Assets → Assets) (ix : Indexer)
    (file : Opened) (repo_path : Text)
    → ix.git_bridge ≡ some repo_path
    → is_empty repo_path ≡ false
    → let first = reconcile files index_files range ix file in
      let second = reconcile files index_files range first.0 first.1.1 in
      (second.1.0.added ≡ 0)
      × ((second.1.0.deleted ≡ 0)
          × ((id : Text) → has_key id second.0.assets ≡ has_key id first.0.assets))
unfolding remove_stale scan_types
reconcile_again files index_files range ix file repo_path b e =
    let first = reconcile files index_files range ix file in
    let sc = whole files repo_path first.0.assets in
    let s = scan_types-Scanned files repo_path asset_types (start first.0.assets) in
    let b' = reconcile-git_bridge files index_files range ix file repo_path b e in
    let listed_first = (reconcile_lem files index_files range ix file repo_path b e).0 in
    let (a, (n, d)) = reconcile-whole files index_files range first.0 first.1.1 repo_path b' e in
    let (listed_second, _) =
      reconcile_lem files index_files range first.0 first.1.1 repo_path b' e in
    let all_valid : (id : Text) → has_key id sc.assets ≡ true → contains sc.valid id ≡ true =
      λ id h. s.finds id ∙ found_before _ _ _ (s.keeps id) (listed_first id) h in
    (
      n ∙ s.adds_nothing (λ id h. listed_first id ∙ h),
      (d ∙ nothing_stale sc s.deletes all_valid, λ id. listed_second id ∙ sym (listed_first id)),
    )
  where
    found_before : (h k p : Bool) → h ≡ (k || p) → k ≡ p → h ≡ true → p ≡ true
    found_before h k p x y z = ground arith

-- Reconcile forgets: every asset that is in the index afterwards has no snapshots, no labels and
-- no history of evaluations, whatever it had before.
pub reconcile_forgets :
    (files : RepoFiles) (index_files : IndexFiles) (range : Assets → Assets) (ix : Indexer)
    (file : Opened) (repo_path id : Text) (d : AssetDetail)
    → ix.git_bridge ≡ some repo_path
    → is_empty repo_path ≡ false
    → get_by_id (reconcile files index_files range ix file).0 id ≡ inl d
    → is_bare d ≡ true
unfolding get_by_id remove_stale
reconcile_forgets files index_files range ix file repo_path id d b e h =
    let sc = whole files repo_path ix.assets in
    let s = scan_types-Scanned files repo_path asset_types (start ix.assets) in
    let (a, _) = reconcile-whole files index_files range ix file repo_path b e in
    let found =
      sym (get_key-keep_keys id (contains sc.valid) sc.assets) ∙ sym (ap (get_key id) a) in
    by_entry (contains sc.valid id) (get_key id sc.assets)
      (get_key id (reconcile files index_files range ix file).0.assets) found
      (λ entry v g. s.forgets (λ q x v. absurd (ground arith)) id entry v g) h
  where
    by_entry :
        (valid : Bool) (stored left : Option AssetEntry)
        → (if valid then stored else none) ≡ left
        → ((entry : AssetEntry) → valid ≡ true → stored ≡ some entry → is_bare entry.detail ≡ true)
        → elim left as (λ _. AssetDetail ⊎ Text) [
          | none ↦ inr (text "asset not found: " ++ id)
          | some entry ↦ inl entry.detail
        ]
          ≡ inl d
        → is_bare d ≡ true
    by_entry valid stored none l bare k = cc
    by_entry true stored (some entry) l bare k =
        let q : entry.detail ≡ d = cc in rw (← q) (bare entry refl l)
    by_entry false stored (some entry) l bare k = cc

-- Without a path, the index stays as it is.
reconcile-same :
    (files : RepoFiles) (index_files : IndexFiles) (range : Assets → Assets) (ix : Indexer)
    (file : Opened)
    → (ix.git_bridge ≡ none)
      ⊎ ((repo_path : Text) × (ix.git_bridge ≡ some repo_path) × (is_empty repo_path ≡ true))
    → (reconcile files index_files range ix file).0.assets ≡ ix.assets
unfolding reconcile
reconcile-same files index_files range ix file (inl e) = rw e refl
reconcile-same files index_files range ix file (inr (repo_path, e, f)) = rw (e, f) refl

-- Reconcile keeps every entry under its ID, with a bridge or without.
pub reconcile-IsValid :
    (files : RepoFiles) (index_files : IndexFiles) (range : Assets → Assets) (ix : Indexer)
    (file : Opened)
    → IsValid ix
    → IsValid (reconcile files index_files range ix file).0
unfolding remove_stale
reconcile-IsValid files index_files range ix file h = elim (Option-cases ix.git_bridge) [
  | inl e ↦ rw (reconcile-same files index_files range ix file (inl e)) h
  | inr (repo_path, e) ↦ elim (Bool-cases (is_empty repo_path)) [
    | inl f ↦ rw (reconcile-same files index_files range ix file (inr (repo_path, e, f))) h
    | inr f ↦
        let sc = whole files repo_path ix.assets in
        let kept = (scan_types-Scanned files repo_path asset_types (start ix.assets)).stays h in
        rw ((reconcile-whole files index_files range ix file repo_path e f).0) (
          keyed-keep_keys (contains sc.valid) sc.assets kept.0,
          distinct_keys-keep_keys (contains sc.valid) sc.assets kept.1,
        )
  ]
]
