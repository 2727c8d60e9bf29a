-- ===== src/Prelude/Maps.antt =====
-- A Go map with string keys, as a list of pairs with different keys in the order of the range
-- loop, which the runtime chooses.
use eval_prompt.Prelude.{
  ◌+◌, ◌≡◌, refl, sym, ap, ◌∙◌, inl, inr, Bool, true, false, not, ◌&&◌, ◌||◌, Option, none, some,
  List, [], ◌∷◌, arith, if◌then◌else◌, Option-cases, length, any, keep, ◌==◌, beq_refl,
  list_beq_iff, nat_eq, list_eq, Text,
}
use eval_prompt.Prelude.Shuffle.{Shuffle, same, swap, keep_head, chain}

module _ {ℓ} {V : Type ℓ} where
  -- m[k], with its second result.
  unfoldable pub get_key : Text → List (Text × V) → Option V
  get_key k [] = none
  get_key k (e ∷ m) = let rest = get_key k m in if e.0 == k then some e.1 else rest

  unfoldable pub has_key : Text → List (Text × V) → Bool
  has_key k m = any (λ (e : Text × V). e.0 == k) m

  -- m[k] = v.
  unfoldable pub put_key : Text → V → List (Text × V) → List (Text × V)
  put_key k v [] = (k, v) ∷ []
  put_key k v (e ∷ m) = let rest = put_key k v m in if e.0 == k then (k, v) ∷ m else e ∷ rest

  -- The pairs whose keys pass a test, which delete(m, k) for each other key leaves.
  unfoldable pub keep_keys : (Text → Bool) → List (Text × V) → List (Text × V)
  keep_keys p m = keep (λ (e : Text × V). p e.0) m

  -- delete(m, k).
  unfoldable pub delete_key : Text → List (Text × V) → List (Text × V)
  unfolding keep_keys
  delete_key k m = keep_keys (λ q. not (q == k)) m

  abbrev pub distinct_keys : List (Text × V) → Bool
  distinct_keys [] = true
  distinct_keys (e ∷ m) = not (has_key e.0 m) && distinct_keys m

  pub get_key-put_key :
      (q k : Text) (v : V) (m : List (Text × V))
      → get_key q (put_key k v m) ≡ (if k == q then some v else get_key q m)
  unfolding get_key put_key
  get_key-put_key q k v [] = refl
  get_key-put_key q k v (e ∷ m) =
      ground
        (arith, list_beq_iff e.0 k, list_beq_iff e.0 q, list_beq_iff k q, get_key-put_key q k v m)

  pub has_key-put_key :
      (q k : Text) (v : V) (m : List (Text × V))
      → has_key q (put_key k v m) ≡ (k == q || has_key q m)
  unfolding has_key put_key
  has_key-put_key q k v [] = ground arith
  has_key-put_key q k v (e ∷ m) =
      ground (arith, list_beq_iff e.0 k, list_beq_iff e.0 q, has_key-put_key q k v m)

  pub get_key-keep_keys :
      (q : Text) (p : Text → Bool) (m : List (Text × V))
      → get_key q (keep_keys p m) ≡ (if p q then get_key q m else none)
  unfolding get_key keep_keys
  get_key-keep_keys q p [] = ground arith
  get_key-keep_keys q p (e ∷ m) = ground (arith, list_beq_iff e.0 q, get_key-keep_keys q p m)

  pub has_key-keep_keys :
      (q : Text) (p : Text → Bool) (m : List (Text × V))
      → has_key q (keep_keys p m) ≡ (p q && has_key q m)
  unfolding has_key keep_keys
  has_key-keep_keys q p [] = ground arith
  has_key-keep_keys q p (e ∷ m) = ground (arith, list_beq_iff e.0 q, has_key-keep_keys q p m)

  pub keep_keys_all :
      (p : Text → Bool) (m : List (Text × V))
      → ((k : Text) → has_key k m ≡ true → p k ≡ true)
      → keep_keys p m ≡ m
  unfolding keep_keys has_key
  keep_keys_all p [] h = refl
  keep_keys_all p (e ∷ m) h =
      let rest = keep_keys_all p m (λ k q. h k (ground (arith, q))) in
      rw (h e.0 (ground (arith, beq_refl e.0))) (ap (λ n. e ∷ n) rest)

  pub distinct_keys-put_key :
      (k : Text) (v : V) (m : List (Text × V))
      → distinct_keys m ≡ true
      → distinct_keys (put_key k v m) ≡ true
  unfolding put_key has_key
  distinct_keys-put_key k v [] h = refl
  distinct_keys-put_key k v (e ∷ m) h = ground (
    arith,
    list_beq_iff e.0 k,
    list_beq_iff k e.0,
    has_key-put_key e.0 k v m,
    distinct_keys-put_key k v m,
  )

  pub distinct_keys-keep_keys :
      (p : Text → Bool) (m : List (Text × V))
      → distinct_keys m ≡ true
      → distinct_keys (keep_keys p m) ≡ true
  unfolding keep_keys
  distinct_keys-keep_keys p [] h = refl
  distinct_keys-keep_keys p (e ∷ m) h =
      ground (arith, has_key-keep_keys e.0 p m, distinct_keys-keep_keys p m)

  pub length-put_key :
      (k : Text) (v : V) (m : List (Text × V))
      → length (put_key k v m) ≡ length m + (if has_key k m then 0 else 1)
  unfolding has_key put_key
  length-put_key k v [] = refl
  length-put_key k v (e ∷ m) = ground (arith, length-put_key k v m)

  pub get_key-has_key :
      (k : Text) (m : List (Text × V))
      → has_key k m ≡ elim (get_key k m) [ none ↦ false | some _ ↦ true ]
  unfolding get_key has_key
  get_key-has_key k [] = refl
  get_key-has_key k (e ∷ m) = ground (arith, get_key-has_key k m)

  pub absent_get_key : (k : Text) (m : List (Text × V)) → has_key k m ≡ false → get_key k m ≡ none
  absent_get_key k m h = elim (Option-cases (get_key k m)) [
    | inl e ↦ e
    | inr (v, e) ↦ absurd (ground (arith, get_key-has_key k m))
  ]

  pub has_key-Shuffle : (k : Text) {m n : List (Text × V)} → Shuffle m n → has_key k m ≡ has_key k n
  unfolding has_key
  has_key-Shuffle k same = refl
  has_key-Shuffle k (swap {x} {y} {xs}) = ground arith
  has_key-Shuffle k (keep_head {x} h) = ground (arith, has_key-Shuffle k h)
  has_key-Shuffle k (chain h l) = has_key-Shuffle k h ∙ has_key-Shuffle k l

  pub distinct_keys-Shuffle :
      {m n : List (Text × V)} → Shuffle m n → distinct_keys m ≡ distinct_keys n
  unfolding has_key
  distinct_keys-Shuffle same = refl
  distinct_keys-Shuffle (swap {x} {y} {xs}) =
      ground (arith, list_beq_iff x.0 y.0, list_beq_iff y.0 x.0)
  distinct_keys-Shuffle (keep_head {x} h) =
      ground (arith, has_key-Shuffle x.0 h, distinct_keys-Shuffle h)
  distinct_keys-Shuffle (chain h l) = distinct_keys-Shuffle h ∙ distinct_keys-Shuffle l

  -- A map does not depend on the order of the range loop.
  pub get_key-Shuffle :
      (k : Text) {m n : List (Text × V)}
      → Shuffle m n
      → distinct_keys m ≡ true
      → get_key k m ≡ get_key k n
  unfolding get_key has_key
  get_key-Shuffle k same h = refl
  get_key-Shuffle k (swap {x} {y} {xs}) h =
      ground (arith, list_beq_iff x.0 k, list_beq_iff y.0 k, list_beq_iff y.0 x.0)
  get_key-Shuffle k (keep_head {x} l) h = ground (arith, get_key-Shuffle k l)
  get_key-Shuffle k (chain l r) h =
      get_key-Shuffle k l h ∙ get_key-Shuffle k r (sym (distinct_keys-Shuffle l) ∙ h)
