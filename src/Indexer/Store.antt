-- ===== src/Indexer/Store.antt =====
-- The index of plugins/search/search.go as a map from IDs to assets: Save, Delete and ReInit in
-- any order, and the entries under their IDs.
use eval_prompt.Prelude.{
  ◌≡◌, refl, ◌⊎◌, inl, inr, Bool, true, false, not, ◌&&◌, Option, none, some, List, [], ◌∷◌, ◌++◌,
  if◌then◌else◌, if_elim, and_true, and_split, ◌==◌, beq_refl, beq_sym, nat_eq, list_eq, Text, text,
}
use eval_prompt.Prelude.Maps.{
  get_key, put_key, keep_keys, delete_key, distinct_keys, get_key-put_key, get_key-keep_keys,
  distinct_keys-put_key, distinct_keys-keep_keys,
}
use eval_prompt.Indexer.{
  Asset, AssetDetail, AssetEntry, Assets, Indexer, get_by_id, saved_detail, save, delete, re_init,
}
use eval_prompt.Indexer.Order.{keyed}

-- The calls that change the index.
pub data Request : Type 0 where
  save_asset : Asset → Request
  delete_id : Text → Request
  re_init_path : Text → Request

unfoldable pub run : List Request → Indexer → Indexer
unfolding save delete re_init
run [] ix = ix
run (save_asset a ∷ rs) ix = run rs (save a ix)
run (delete_id id ∷ rs) ix = run rs (delete id ix)
run (re_init_path path ∷ rs) ix = run rs (re_init path ix)

-- What a client expects: the asset of the last Save under an ID, until it is deleted or the index
-- is cleared.
unfoldable pub saved_asset : List Request → Text → Option Asset → Option Asset
saved_asset [] id last = last
saved_asset (save_asset a ∷ rs) id last = saved_asset rs id (if a.id == id then some a else last)
saved_asset (delete_id q ∷ rs) id last = saved_asset rs id (if q == id then none else last)
saved_asset (re_init_path path ∷ rs) id last = saved_asset rs id none

abbrev pub Found : Indexer → Text → Option Asset → Type 0
Found ix id last =
    get_key id ix.assets
    ≡ elim last [ none ↦ none | some a ↦ some (record { asset = a; detail = saved_detail a }) ]

save-Found :
    (a : Asset) (ix : Indexer) (id : Text) (last : Option Asset)
    → Found ix id last
    → Found (save a ix) id (if a.id == id then some a else last)
unfolding save
save-Found a ix id last h =
    rw (get_key-put_key id a.id (record { asset = a; detail = saved_detail a }) ix.assets)
      (by_test (a.id == id))
  where
    by_test :
        (b : Bool)
        → (if b then some (record { asset = a; detail = saved_detail a }) else get_key id ix.assets)
          ≡ elim (if b then some a else last) [
            | none ↦ none
            | some a ↦ some (record { asset = a; detail = saved_detail a })
          ]
    by_test true = refl
    by_test false = h

delete-Found :
    (q : Text) (ix : Indexer) (id : Text) (last : Option Asset)
    → Found ix id last
    → Found (delete q ix) id (if q == id then none else last)
unfolding delete delete_key
delete-Found q ix id last h =
    rw (get_key-keep_keys id (λ k. not (k == q)) ix.assets)
      (by_test (id == q) (q == id) (beq_sym id q))
  where
    by_test :
        (b c : Bool)
        → b ≡ c
        → (if not b then get_key id ix.assets else none) ≡ elim (if c then none else last) [
          | none ↦ none
          | some a ↦ some (record { asset = a; detail = saved_detail a })
        ]
    by_test b true e = rw e refl
    by_test b false e = rw e h

run-Found :
    (rs : List Request) (ix : Indexer) (id : Text) (last : Option Asset)
    → Found ix id last
    → Found (run rs ix) id (saved_asset rs id last)
unfolding run saved_asset re_init get_key
run-Found [] ix id last h = h
run-Found (save_asset a ∷ rs) ix id last h =
    run-Found rs (save a ix) id (if a.id == id then some a else last) (save-Found a ix id last h)
run-Found (delete_id q ∷ rs) ix id last h =
    run-Found rs (delete q ix) id (if q == id then none else last) (delete-Found q ix id last h)
run-Found (re_init_path path ∷ rs) ix id last h = run-Found rs (re_init path ix) id none refl

-- Whatever Save, Delete and ReInit are called on an empty index, GetByID finds the detail of the
-- asset that was last saved under the ID, or fails where none was or where it was deleted or
-- cleared since.
pub run_refines :
    (rs : List Request) (ix : Indexer) (id : Text)
    → ix.assets ≡ []
    → get_by_id (run rs ix) id ≡ elim (saved_asset rs id none) [
      | none ↦ inr (text "asset not found: " ++ id)
      | some a ↦ inl (saved_detail a)
    ]
unfolding get_by_id get_key
run_refines rs ix id h =
    found (get_key id (run rs ix).assets) (saved_asset rs id none)
      (run-Found rs ix id none (rw h refl))
  where
    found :
        (entry : Option AssetEntry) (last : Option Asset)
        → entry ≡ elim last [
          | none ↦ none
          | some a ↦ some (record { asset = a; detail = saved_detail a })
        ]
        → elim entry as (λ _. AssetDetail ⊎ Text) [
          | none ↦ inr (text "asset not found: " ++ id)
          | some e ↦ inl e.detail
        ]
          ≡ elim last [
            | none ↦ inr (text "asset not found: " ++ id)
            | some a ↦ inl (saved_detail a)
          ]
    found entry none h = rw h refl
    found entry (some a) h = rw h refl

-- Every entry stands under its ID, and no two under one key.
abbrev pub IsValid : Indexer → Type 0
IsValid ix = (keyed ix.assets ≡ true) × (distinct_keys ix.assets ≡ true)

pub keyed-put_key :
    (entry : AssetEntry) (k : Text) (assets : Assets)
    → entry.asset.id ≡ k
    → entry.detail.id ≡ k
    → keyed assets ≡ true
    → keyed (put_key k entry assets) ≡ true
unfolding put_key
keyed-put_key entry k [] a d h = rw (a, d, beq_refl k) refl
keyed-put_key entry k (e ∷ assets) a d h =
    let (own, rest) = and_split _ _ h in
    if_elim (λ m. keyed m ≡ true) (e.0 == k) (λ _. and_true _ _ (rw (a, d, beq_refl k) refl) rest)
      (λ _. and_true _ _ own (keyed-put_key entry k assets a d rest))

pub keyed-keep_keys :
    (p : Text → Bool) (assets : Assets) → keyed assets ≡ true → keyed (keep_keys p assets) ≡ true
unfolding keep_keys
keyed-keep_keys p [] h = refl
keyed-keep_keys p (e ∷ assets) h =
    let (own, rest) = and_split _ _ h in
    let kept = keyed-keep_keys p assets rest in branch (p e.0) own kept
  where
    branch :
        (b : Bool)
        → (e.1.asset.id == e.0 && e.1.detail.id == e.0) ≡ true
        → keyed (keep_keys p assets) ≡ true
        → keyed (elim b [ true ↦ e ∷ keep_keys p assets | false ↦ keep_keys p assets ]) ≡ true
    branch true own kept = and_true _ _ own kept
    branch false own kept = kept

pub put_key-IsValid :
    (entry : AssetEntry) (k : Text) (ix : Indexer)
    → entry.asset.id ≡ k
    → entry.detail.id ≡ k
    → IsValid ix
    → IsValid (record ix { assets = put_key k entry ix.assets })
put_key-IsValid entry k ix a d (keys, distinct) =
    (keyed-put_key entry k ix.assets a d keys, distinct_keys-put_key k entry ix.assets distinct)

-- Save, Delete and ReInit keep every entry under its ID, and no two under one.
pub run-IsValid : (rs : List Request) (ix : Indexer) → IsValid ix → IsValid (run rs ix)
unfolding run save delete re_init saved_detail delete_key
run-IsValid [] ix h = h
run-IsValid (save_asset a ∷ rs) ix h =
    run-IsValid rs (save a ix)
      (put_key-IsValid (record { asset = a; detail = saved_detail a }) a.id ix refl refl h)
run-IsValid (delete_id q ∷ rs) ix (keys, distinct) = run-IsValid rs (delete q ix) (
  keyed-keep_keys (λ k. not (k == q)) ix.assets keys,
  distinct_keys-keep_keys (λ k. not (k == q)) ix.assets distinct,
)
run-IsValid (re_init_path path ∷ rs) ix h = run-IsValid rs (re_init path ix) (refl, refl)
