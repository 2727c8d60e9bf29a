-- ===== src/Indexer/Counts.antt =====
-- What the scan of Reconcile (plugins/search/reconcile.go) does to the assets and to its report.
use mathlib.Core.Path.{fun_ext}
use eval_prompt.Prelude.{
  ◌+◌, ◌≡◌, refl, sym, ◌∙◌, ◌⊎◌, inl, inr, Bool, true, false, ◌&&◌, ◌||◌, some, List, [], ◌∷◌, ◌++◌,
  arith, if◌then◌else◌, length, any, any-append, ◌==◌, beq_refl, contains, nat_eq, list_eq, Text,
  text, is_empty,
}
use eval_prompt.Prelude.Maps.{
  get_key, has_key, put_key, distinct_keys, get_key-put_key, has_key-put_key, distinct_keys-put_key,
  length-put_key,
}
use eval_prompt.Indexer.{AssetDetail, AssetEntry, Assets}
use eval_prompt.Domain.AssetFile.{AssetYaml}
use eval_prompt.Indexer.Order.{keyed}
use eval_prompt.Indexer.Store.{keyed-put_key}
use eval_prompt.Indexer.Reconcile.{
  DirEntry, RepoFiles, Scan, asset_types, add_error, read_asset, scanned_entry, store_entry,
  reconcile_asset, is_registry, registry_id, registry_path, scan_entry, scan_entries, stat_found,
}

-- Whether an entry of a directory is a registry file of an ID that can be read.
abbrev pub registers : RepoFiles → Text → Text → Text → DirEntry → Bool
registers files repo_path asset_type id entry =
    is_registry entry
    && (registry_id entry == id
        && elim (read_asset files repo_path (registry_path files asset_type entry)) [
          | inr _ ↦ false
          | inl _ ↦ true
        ])

-- Whether the directory of a type holds one.
abbrev pub listed_in : RepoFiles → Text → Text → Text → Bool
listed_in files repo_path asset_type id =
    elim (files.stat (files.join (repo_path ∷ text "assets" ∷ (asset_type ++ text "s") ∷ []))) [
      | stat_found true ↦
          elim (files.read_dir
            (files.join (repo_path ∷ text "assets" ∷ (asset_type ++ text "s") ∷ []))) [
              | inl entries ↦ any (registers files repo_path asset_type id) entries
              | inr _ ↦ false
            ]
      | _ ↦ false
    ]

abbrev pub listed : RepoFiles → Text → Text → Bool
listed files repo_path id = any (λ asset_type. listed_in files repo_path asset_type id) asset_types

-- A detail without its versions and its evaluations.
abbrev pub is_bare : AssetDetail → Bool
is_bare d = is_empty d.snapshots && (is_empty d.labels && is_empty d.eval_history)

abbrev pub Bare : Scan → Type 0
Bare sc =
    (id : Text) (e : AssetEntry)
    → contains sc.valid id ≡ true
    → get_key id sc.assets ≡ some e
    → is_bare e.detail ≡ true

-- The entries stand under their IDs.
abbrev pub Kept : Assets → Type 0
Kept m = (keyed m ≡ true) × (distinct_keys m ≡ true)

-- A part of the scan that finds the IDs of `p`.
pub record Scanned (p : Text → Bool) (sc sc' : Scan) : Type 0 where
  pub finds : (id : Text) → contains sc'.valid id ≡ (contains sc.valid id || p id)
  pub keeps : (id : Text) → has_key id sc'.assets ≡ (has_key id sc.assets || p id)
  pub counts : length sc'.assets + sc.report.added ≡ length sc.assets + sc'.report.added
  pub deletes : sc'.report.deleted ≡ sc.report.deleted
  pub adds_nothing :
      ((id : Text) → p id ≡ true → has_key id sc.assets ≡ true) → sc'.report.added ≡ sc.report.added
  pub forgets : Bare sc → Bare sc'
  pub stays : Kept sc.assets → Kept sc'.assets

pub Scanned-same :
    (sc sc' : Scan)
    → sc'.valid ≡ sc.valid
    → sc'.assets ≡ sc.assets
    → sc'.report.added ≡ sc.report.added
    → sc'.report.deleted ≡ sc.report.deleted
    → Scanned (λ _. false) sc sc'
Scanned-same sc sc' v a n d = record {
  finds = λ id. rw v (ground arith);
  keeps = λ id. rw a (ground arith);
  counts = rw (a, n) refl;
  deletes = d;
  adds_nothing = λ _. n;
  forgets = λ b id e. rw (v, a) (b id e);
  stays = λ k. rw a k;
}

pub Scanned-chain :
    (p q : Text → Bool) (a b c : Scan)
    → Scanned p a b
    → Scanned q b c
    → Scanned (λ id. p id || q id) a c
Scanned-chain p q a b c h k = record {
  finds = λ id. ground (arith, h.finds id, k.finds id);
  keeps = λ id. ground (arith, h.keeps id, k.keeps id);
  counts = omega (arith, h.counts, k.counts);
  deletes = k.deletes ∙ h.deletes;
  adds_nothing = λ there.
      k.adds_nothing (λ id e. ground (arith, h.keeps id, there id))
      ∙ h.adds_nothing (λ id e. there id (ground arith));
  forgets = λ bare. k.forgets (h.forgets bare);
  stays = λ kept. k.stays (h.stays kept);
}

-- The same with another description of the IDs.
Scanned-iff :
    (p q : Text → Bool) (a b : Scan) → ((id : Text) → p id ≡ q id) → Scanned p a b → Scanned q a b
Scanned-iff p q a b e h = rw (← fun_ext e) h

stored-Bare :
    (k : Text) (entry : AssetEntry) (sc : Scan) (id : Text) (e : AssetEntry)
    → is_bare entry.detail ≡ true
    → Bare sc
    → contains (sc.valid ++ (k ∷ [])) id ≡ true
    → get_key id (put_key k entry sc.assets) ≡ some e
    → is_bare e.detail ≡ true
stored-Bare k entry sc id e bare before valid found =
    by_key (k == id) (sym (any-append (λ x. x == id) sc.valid (k ∷ [])) ∙ valid)
      (sym (get_key-put_key id k entry sc.assets) ∙ found)
  where
    by_key :
        (b : Bool)
        → (contains sc.valid id || (b || false)) ≡ true
        → (if b then some entry else get_key id sc.assets) ≡ some e
        → is_bare e.detail ≡ true
    by_key true v g = let q : entry ≡ e = cc in rw (← q) bare
    by_key false v g = before id e (left_of _ v) g
      where
        left_of : (c : Bool) → (c || (false || false)) ≡ true → c ≡ true
        left_of c h = ground arith

store_entry-Scanned :
    (k : Text) (entry : AssetEntry) (sc : Scan)
    → entry.asset.id ≡ k
    → entry.detail.id ≡ k
    → is_bare entry.detail ≡ true
    → Scanned
        (λ id. k == id)
        sc
        (record (store_entry k entry sc) { valid = (store_entry k entry sc).valid ++ (k ∷ []) })
unfolding store_entry
store_entry-Scanned k entry sc a d bare = record {
  finds = λ id. any-append (λ x. x == id) sc.valid (k ∷ []) ∙ ground arith;
  keeps = λ id. has_key-put_key id k entry sc.assets ∙ ground arith;
  counts = ground (arith, length-put_key k entry sc.assets);
  deletes = ground arith;
  adds_nothing = λ there. ground (arith, there k, beq_refl k);
  forgets = λ b id e v g. stored-Bare k entry sc id e bare b v g;
  stays = λ kept.
      (keyed-put_key entry k sc.assets a d kept.0, distinct_keys-put_key k entry sc.assets kept.1);
}

-- The scan after a registry file that was read or could not be read.
abbrev after_read :
    RepoFiles → Text → Text → Text → Scan → (AssetYaml × (Text × Bool)) ⊎ Text → Scan
after_read files repo_path path k sc r =
    elim (elim r as (λ _. Scan ⊎ Text) [
      | inr err ↦ inr err
      | inl (ay, resolved) ↦
          inl (store_entry k (scanned_entry files repo_path path k ay resolved) sc)
    ]) [
      | inr err ↦ add_error (text "reconcile " ++ (k ++ (text ": " ++ err))) sc
      | inl sc' ↦ record sc' { valid = sc'.valid ++ (k ∷ []) }
    ]

abbrev could_read : (AssetYaml × (Text × Bool)) ⊎ Text → Bool
could_read r = elim r [ inr _ ↦ false | inl _ ↦ true ]

after_read-Scanned :
    (files : RepoFiles) (repo_path path k : Text) (sc : Scan)
    (r : (AssetYaml × (Text × Bool)) ⊎ Text)
    → Scanned (λ id. k == id && could_read r) sc (after_read files repo_path path k sc r)
unfolding add_error scanned_entry
after_read-Scanned files repo_path path k sc (inr err) =
    let sc' = after_read files repo_path path k sc (inr err) in
    Scanned-iff (λ _. false) (λ id. k == id && false) sc sc' (λ id. ground arith)
      (Scanned-same sc sc' refl refl refl refl)
after_read-Scanned files repo_path path k sc (inl (ay, resolved)) =
    Scanned-iff (λ id. k == id) (λ id. k == id && true) sc
      (after_read files repo_path path k sc (inl (ay, resolved))) (λ id. ground arith)
      (store_entry-Scanned k (scanned_entry files repo_path path k ay resolved) sc refl refl refl)

scan_entry-Scanned :
    (files : RepoFiles) (repo_path asset_type : Text) (entry : DirEntry) (sc : Scan)
    → Scanned
        (λ id. registers files repo_path asset_type id entry)
        sc
        (scan_entry files repo_path asset_type entry sc)
unfolding scan_entry reconcile_asset
scan_entry-Scanned files repo_path asset_type entry sc =
    let path = registry_path files asset_type entry in
    let r = read_asset files repo_path path in
    by_name (is_registry entry) (λ id. registry_id entry == id && could_read r)
      (after_read files repo_path path (registry_id entry) sc r)
      (after_read-Scanned files repo_path path (registry_id entry) sc r)
  where
    by_name :
        (b : Bool) (p : Text → Bool) (sc' : Scan)
        → Scanned p sc sc'
        → Scanned (λ id. b && p id) sc (if b then sc' else sc)
    by_name true p sc' h = h
    by_name false p sc' h = Scanned-same sc sc refl refl refl refl

pub scan_entries-Scanned :
    (files : RepoFiles) (repo_path asset_type : Text) (entries : List DirEntry) (sc : Scan)
    → Scanned
        (λ id. any (registers files repo_path asset_type id) entries)
        sc
        (scan_entries files repo_path asset_type entries sc)
unfolding scan_entries
scan_entries-Scanned files repo_path asset_type [] sc = Scanned-same sc sc refl refl refl refl
scan_entries-Scanned files repo_path asset_type (entry ∷ entries) sc =
    let sc' = scan_entry files repo_path asset_type entry sc in
    Scanned-chain (λ id. registers files repo_path asset_type id entry)
      (λ id. any (registers files repo_path asset_type id) entries) sc sc'
      (scan_entries files repo_path asset_type entries sc')
      (scan_entry-Scanned files repo_path asset_type entry sc)
      (scan_entries-Scanned files repo_path asset_type entries sc')
