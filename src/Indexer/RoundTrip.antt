-- ===== src/Indexer/RoundTrip.antt =====
-- What persist writes and Load reads again (plugins/search/search.go).
use eval_prompt.Prelude.{
  ◌≡◌, refl, sym, ap, ◌∙◌, ◌⊎◌, inl, inr, Bool, true, false, Option, none, some, List, [], ◌∷◌,
  ◌++◌, if◌then◌else◌, if_elim, and_split, not-true, ◌==◌, list_beq_iff, nat_eq, list_eq, Text,
  text, is_empty,
}
use eval_prompt.Prelude.Shuffle.{Shuffle, sorted_by}
use eval_prompt.Prelude.Maps.{
  get_key, has_key, put_key, distinct_keys, get_key-put_key, absent_get_key, distinct_keys-Shuffle,
  get_key-Shuffle,
}
use eval_prompt.Indexer.{SnapshotSummary, AssetDetail, AssetEntry, Assets, Indexer, get_by_id}
use eval_prompt.Indexer.Order.{keyed, keyed_detail, keyed-Shuffle, keyed_rest}
use eval_prompt.Indexer.Persist.{
  PersistEntry, Opened, Sorting, IndexFiles, persist_entry, persist_entries, persist, later,
  loaded_asset, loaded_detail, load_entries, load, not_exist, open_failed, opened,
}
use eval_prompt.Indexer.Store.{IsValid, put_key-IsValid}

abbrev restored_entry : Sorting → AssetEntry → AssetEntry
restored_entry sort e = record {
  asset = loaded_asset (persist_entry e);
  detail = loaded_detail sort (persist_entry e);
}

-- The detail as Load restores it.
abbrev restored : Sorting → AssetDetail → AssetDetail
restored sort d = record d {
  snapshots = sort later d.snapshots;
  keywords = [];
  main = [];
  content_hash = [];
  is_external = false;
}

-- A detail that is the same as another, but for the order of its snapshots, which goes from the
-- latest to the earliest, and for its keywords, main file, content hash and external flag, which
-- are empty.
abbrev pub Restored : AssetDetail → AssetDetail → Type 0
Restored d d' =
    (d' ≡ record d {
      snapshots = d'.snapshots;
      keywords = [];
      main = [];
      content_hash = [];
      is_external = false;
    })
    × Shuffle d.snapshots d'.snapshots
    × (sorted_by later d'.snapshots ≡ true)

-- An answer of GetByID that an answer of the loaded index stands for: the same error, or the
-- restored detail.
abbrev pub Recovers : AssetDetail ⊎ Text → AssetDetail ⊎ Text → Type 0
Recovers (inr err) answer = answer ≡ inr err
Recovers (inl d) answer = (d' : AssetDetail) × (answer ≡ inl d') × Restored d d'

recovered :
    (sort : Sorting)
    → ((xs : List SnapshotSummary)
        → Shuffle xs (sort later xs) × (sorted_by later (sort later xs) ≡ true))
    → (before : AssetDetail ⊎ Text)
    → Recovers before (elim before [ inr err ↦ inr err | inl d ↦ inl (restored sort d) ])
recovered sort sorts (inr err) = refl
recovered sort sorts (inl d) =
    (restored sort d, refl, (refl, (sorts d.snapshots).0, (sorts d.snapshots).1))

load_entries-get_key :
    (sort : Sorting) (id : Text) (m acc : Assets)
    → keyed m ≡ true
    → distinct_keys m ≡ true
    → get_key id (load_entries sort (persist_entries m) acc)
      ≡ elim (get_key id m) [ none ↦ get_key id acc | some e ↦ some (restored_entry sort e) ]
unfolding load_entries persist_entries get_key
load_entries-get_key sort id [] acc k d = refl
load_entries-get_key sort id (e ∷ m) acc k d =
    let (fresh, distinct) = and_split _ _ d in
    load_entries-get_key sort id m (put_key e.1.detail.id (restored_entry sort e.1) acc)
      (keyed_rest e m k) distinct
    ∙ by_test (e.0 == id) (get_key id m)
        (get_key id (put_key e.1.detail.id (restored_entry sort e.1) acc))
        (unique (not-true _ fresh))
        (get_key-put_key id e.1.detail.id (restored_entry sort e.1) acc
          ∙ ap (λ q. if q == id then some (restored_entry sort e.1) else get_key id acc)
              (keyed_detail e m k))
  where
    unique : has_key e.0 m ≡ false → (e.0 == id) ≡ true → get_key id m ≡ none
    unique absent here =
        let p : e.0 ≡ id = (list_beq_iff e.0 id).0 here in rw (← p) (absent_get_key e.0 m absent)

    by_test :
        (b : Bool) (found stored : Option AssetEntry)
        → (b ≡ true → found ≡ none)
        → stored ≡ (if b then some (restored_entry sort e.1) else get_key id acc)
        → elim found [ none ↦ stored | some x ↦ some (restored_entry sort x) ]
          ≡ elim (if b then some e.1 else found) [
            | none ↦ get_key id acc
            | some x ↦ some (restored_entry sort x)
          ]
    by_test true found stored h s = rw (h refl) s
    by_test false none stored h s = s
    by_test false (some x) stored h s = refl

loaded_get_key :
    (sort : Sorting) (id : Text) (range : Assets → Assets) (ix : Indexer)
    → IsValid ix
    → Shuffle ix.assets (range ix.assets)
    → get_key id (load_entries sort (persist_entries (range ix.assets)) [])
      ≡ elim (get_key id ix.assets) [ none ↦ none | some e ↦ some (restored_entry sort e) ]
unfolding get_key
loaded_get_key sort id range ix (keys, distinct) shuffled =
    load_entries-get_key sort id (range ix.assets) [] (sym (keyed-Shuffle shuffled) ∙ keys)
      (sym (distinct_keys-Shuffle shuffled) ∙ distinct)
    ∙ rw (← get_key-Shuffle id shuffled distinct) refl

restored-get_by_id :
    (sort : Sorting) (ix jx : Indexer) (id : Text)
    → get_key id jx.assets
      ≡ elim (get_key id ix.assets) [ none ↦ none | some e ↦ some (restored_entry sort e) ]
    → get_by_id jx id ≡ elim (get_by_id ix id) [ inr err ↦ inr err | inl d ↦ inl (restored sort d) ]
unfolding get_by_id loaded_detail persist_entry
restored-get_by_id sort ix jx id h = found (get_key id ix.assets) (get_key id jx.assets) h
  where
    found :
        (entry loaded : Option AssetEntry)
        → loaded ≡ elim entry as (λ _. Option AssetEntry) [
          | none ↦ none
          | some x ↦ some (restored_entry sort x)
        ]
        → elim loaded as (λ _. AssetDetail ⊎ Text) [
          | none ↦ inr (text "asset not found: " ++ id)
          | some x ↦ inl x.detail
        ]
          ≡ elim (elim entry as (λ _. AssetDetail ⊎ Text) [
            | none ↦ inr (text "asset not found: " ++ id)
            | some x ↦ inl x.detail
          ]) [ inr err ↦ inr err | inl d ↦ inl (restored sort d) ]
    found none loaded h = rw h refl
    found (some x) loaded h = rw h refl

-- An index that is persisted without an error and loaded into an empty one is found again: each
-- ID gives the same error, or the same detail but for the order of its snapshots, which is then from
-- the latest to the earliest, and for its keywords, main file, content hash and external flag, which
-- are lost. It needs every entry under its ID, an encoding that decodes to what was encoded, and a
-- sort.Slice that reorders what it is given and leaves it sorted.
pub load-persist :
    (files : IndexFiles) (range : Assets → Assets) (ix empty : Indexer) (file : Opened)
    (content id : Text)
    → IsValid ix
    → Shuffle ix.assets (range ix.assets)
    → empty.assets ≡ []
    → is_empty ix.persist_dir ≡ false
    → empty.persist_dir ≡ ix.persist_dir
    → files.mkdir_all ix.persist_dir ≡ none
    → files.create ix.persist_dir ≡ none
    → files.encode (persist_entries (range ix.assets)) ≡ (content, none)
    → files.decode content ≡ inl (persist_entries (range ix.assets))
    → ((xs : List SnapshotSummary)
        → Shuffle xs (files.sort_slice later xs)
          × (sorted_by later (files.sort_slice later xs) ≡ true))
    → Recovers (get_by_id ix id) (get_by_id (load files (persist files range ix file).0 empty).0 id)
unfolding load persist
load-persist files range ix empty file content id valid shuffled e p q mk cr enc dec sorts =
    let loaded = load_entries files.sort_slice (persist_entries (range ix.assets)) [] in
    let found =
      restored-get_by_id files.sort_slice ix (record empty { assets = loaded }) id
        (loaded_get_key files.sort_slice id range ix valid shuffled) in
    rw (p, mk, cr, enc, q, p, dec, e, found) (recovered files.sort_slice sorts (get_by_id ix id))

load_entries-IsValid :
    (sort : Sorting) (pes : List PersistEntry) (ix : Indexer)
    → IsValid ix
    → IsValid (record ix { assets = load_entries sort pes ix.assets })
unfolding load_entries loaded_asset loaded_detail
load_entries-IsValid sort [] ix h = h
load_entries-IsValid sort (pe ∷ pes) ix h =
    let entry : AssetEntry = record { asset = loaded_asset pe; detail = loaded_detail sort pe } in
    load_entries-IsValid sort pes (record ix { assets = put_key pe.id entry ix.assets })
      (put_key-IsValid entry pe.id ix refl refl h)

-- Load keeps every entry under its ID, whatever the file says and whether or not it fails.
pub load-IsValid :
    (files : IndexFiles) (file : Opened) (ix : Indexer)
    → IsValid ix
    → IsValid (load files file ix).0
unfolding load
load-IsValid files file ix h =
    if_elim (λ (r : Indexer × Option Text). IsValid r.0) (is_empty ix.persist_dir) (λ _. h)
      (λ _. by_file file)
  where
    by_content :
        (d : List PersistEntry ⊎ Text)
        → IsValid
            (elim d as (λ _. Indexer × Option Text) [
              | inr err ↦ (ix, some (text "decode index: " ++ err))
              | inl pes ↦ (record ix { assets = load_entries files.sort_slice pes ix.assets }, none)
            ]).0
    by_content (inr err) = h
    by_content (inl pes) = load_entries-IsValid files.sort_slice pes ix h

    by_file :
        (f : Opened)
        → IsValid
            (elim f as (λ _. Indexer × Option Text) [
              | not_exist ↦ (ix, none)
              | open_failed err ↦ (ix, some (text "open index file: " ++ err))
              | opened content ↦ elim (files.decode content) [
                | inr err ↦ (ix, some (text "decode index: " ++ err))
                | inl pes ↦
                    (record ix { assets = load_entries files.sort_slice pes ix.assets }, none)
              ]
            ]).0
    by_file not_exist = h
    by_file (open_failed err) = h
    by_file (opened content) = by_content (files.decode content)
