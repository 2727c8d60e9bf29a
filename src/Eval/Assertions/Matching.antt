-- ===== src/Eval/Assertions/Matching.antt =====
-- What matchesPath and the content check of plugins/eval/assertions.go accept.
use mathlib.Core.List.{reverse, reverse-append, reverse-reverse}
use eval_prompt.Prelude.{
  ◌≡◌, refl, ◌↔◌, inl, inr, true, false, some, [], ◌∷◌, ◌++◌, arith, Bool-cases, ◌==◌, list_beq_iff,
  nat_eq, list_eq, Text, text,
}
use eval_prompt.Eval.Assertions.{matches_path}
use eval_prompt.Prelude.Strings.{
  strip_prefix, has_suffix, trim_suffix, has_prefix-append, has_prefix-split,
}

strip_prefix-append : (p s : Text) → strip_prefix (p ++ s) p ≡ some s
unfolding strip_prefix
strip_prefix-append [] s = refl
strip_prefix-append (c ∷ p) s = ground (arith, strip_prefix-append p s)

pub has_suffix-append : (p s : Text) → has_suffix (p ++ s) s ≡ true
unfolding has_suffix
has_suffix-append p s = rw (reverse-append p s) (has_prefix-append (reverse s) (reverse p))

pub trim_suffix-append : (p s : Text) → trim_suffix (p ++ s) s ≡ p
unfolding trim_suffix
trim_suffix-append p s =
    rw (reverse-append p s, strip_prefix-append (reverse s) (reverse p), trim_suffix)
      (reverse-reverse p)

star_alone : (prefix : Text) → prefix ++ text "*" ≡ text "*" → prefix ≡ []
star_alone [] e = refl
star_alone (c ∷ []) e = absurd (ground arith)
star_alone (c ∷ d ∷ prefix) e = absurd (ground arith)

-- A pattern that ends in `*` matches exactly the paths that begin with what stands before it.
pub matches_path-star :
    (path prefix : Text)
    → (matches_path path (prefix ++ text "*") ≡ true) ↔ ((rest : Text) × (path ≡ prefix ++ rest))
unfolding matches_path
matches_path-star path prefix =
    let ends = has_suffix-append prefix (text "*") in
    let cut = trim_suffix-append prefix (text "*") in
    let alone = list_beq_iff (prefix ++ text "*") (text "*") in
    elim (Bool-cases ((prefix ++ text "*") == text "*")) [
      | inl star ↦
          let empty = star_alone prefix (alone.0 star) in
          (λ h. (path, rw empty refl), λ _. rw (star, matches_path) refl)
      | inr longer ↦ (
        λ h. has_prefix-split path prefix (rw (longer, ends, cut, matches_path) at h),
        λ (rest, e). rw (longer, ends, cut, matches_path) (rw e (has_prefix-append prefix rest)),
      )
    ]

-- Any other pattern matches that path alone.
pub matches_path-literal :
    (path pattern' : Text)
    → has_suffix pattern' (text "*") ≡ false
    → (matches_path path pattern' ≡ true) ↔ (path ≡ pattern')
unfolding matches_path
matches_path-literal path pattern' h = ground (
  arith,
  list_beq_iff path pattern',
  list_beq_iff pattern' (text "*"),
  has_suffix-append [] (text "*"),
)
