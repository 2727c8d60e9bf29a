-- ===== src/Trigger/Injection.antt =====
-- ValidateAntiPatterns and InjectVariables of internal/service/trigger_service.go. The variables
-- have the order of the range loop over the map; pongo2 is a parameter.
use eval_prompt.Prelude.{
  ℕ, zero, suc, ◌-◌, ◌≡◌, refl, sym, ap, ◌∙◌, ◌≢◌, ◌↔◌, ◌⊎◌, inl, inr, Bool, true, false, not, ◌&&◌,
  ◌||◌, Option, none, some, List, [], ◌∷◌, ◌++◌, arith, if◌then◌else◌, Bool-cases, if_elim,
  guard_passed, and_split, or_false, not-true, length, all, ◌==◌, beq_refl, list_beq_iff, contains,
  nat_eq, list_eq, Text, text, is_empty,
}
use eval_prompt.Prelude.Strings.{
  has_prefix, contains_text, contains_text-split, contains_text-intro,
}

abbrev pub default_anti_patterns : List Text
default_anti_patterns =
    text "generate code"
    ∷ text "write new feature"
    ∷ text "refactor entire"
    ∷ text "delete all"
    ∷ text "drop table"
    ∷ text "rm -rf"
    ∷ []

-- The loop of ValidateAntiPatterns: the first pattern that the prompt contains.
unfoldable pub first_anti_pattern : Text → List Text → Option Text
unfolding contains_text
first_anti_pattern prompt [] = none
first_anti_pattern prompt (pattern_text ∷ patterns) =
    let rest = first_anti_pattern prompt patterns in
    if contains_text prompt pattern_text
    then some (text "prompt contains anti-pattern: " ++ pattern_text)
    else rest

unfoldable pub validate_anti_patterns : (Text → Text) → Text → Option Text
unfolding first_anti_pattern
validate_anti_patterns lower prompt = first_anti_pattern (lower prompt) default_anti_patterns

-- ReplaceAll for a text that is not empty: the first `n` bytes are replaced already.
unfoldable pub replace_from : ℕ → Text → Text → Text → Text
unfolding has_prefix
replace_from n old new [] = []
replace_from (suc n) old new (c ∷ s) = replace_from n old new s
replace_from zero old new (c ∷ s) =
    let replaced = replace_from (length old - 1) old new s in
    let kept = replace_from zero old new s in
    if has_prefix (c ∷ s) old then new ++ replaced else c ∷ kept

abbrev pub braces : Text → Text
braces key = text "{{" ++ (key ++ text "}}")

abbrev pub dollar : Text → Text
dollar key = text "${" ++ (key ++ text "}")

-- The first pass.
unfoldable pub replace_variables : List (Text × Text) → Text → Text
unfolding replace_from
replace_variables [] result = result
replace_variables ((key, value) ∷ vars) result =
    replace_variables vars
      (replace_from 0 (dollar key) value (replace_from 0 (braces key) value result))

-- pongo2.FromString with Execute: `none` where the template does not parse.
unfoldable pub inject_variables :
    (Text → List (Text × Text) → Option (Text ⊎ Text)) → Text → List (Text × Text) → Text ⊎ Text
unfolding replace_variables contains_text
inject_variables execute prompt vars =
    if is_empty vars
    then inl prompt
    else let result = replace_variables vars prompt in
      if contains_text result (text "{{ ") || contains_text result (text "{% ")
      then elim (execute result vars) [ none ↦ inl result | some r ↦ r ]
      else inl result

first_anti_pattern-absent :
    (prompt : Text) (ps : List Text)
    → first_anti_pattern prompt ps ≡ none
    → (p : Text) → contains ps p ≡ true
    → contains_text prompt p ≡ false
unfolding first_anti_pattern
first_anti_pattern-absent prompt [] e p m = cc
first_anti_pattern-absent prompt (q ∷ ps) e p m =
    let (here, there) =
      guard_passed (contains_text prompt q) (text "prompt contains anti-pattern: " ++ q)
        (first_anti_pattern prompt ps) e in
    elim (Bool-cases (q == p)) [
      | inl hit ↦ rw (← (list_beq_iff q p).0 hit) here
      | inr miss ↦ first_anti_pattern-absent prompt ps there p (later (q == p) _ miss m)
    ]
  where
    later : (a b : Bool) → a ≡ false → (a || b) ≡ true → b ≡ true
    later a b x y = ground arith

absent-first_anti_pattern :
    (prompt : Text) (ps : List Text)
    → ((p : Text) → contains ps p ≡ true → contains_text prompt p ≡ false)
    → first_anti_pattern prompt ps ≡ none
unfolding first_anti_pattern
absent-first_anti_pattern prompt [] h = refl
absent-first_anti_pattern prompt (q ∷ ps) h =
    let here = h q (rw (beq_refl q) refl) in
    rw here (absent-first_anti_pattern prompt ps (λ p m. h p (or_later (q == p) _ m)))
  where
    or_later : (a b : Bool) → b ≡ true → (a || b) ≡ true
    or_later a b x = ground arith

-- ValidateAntiPatterns accepts a prompt exactly where no pattern stands anywhere in it, in lower
-- case.
pub validate_anti_patterns-eq-none_iff :
    (lower : Text → Text) (prompt : Text)
    → (validate_anti_patterns lower prompt ≡ none) ↔ (
        (pattern_text before after : Text)
        → contains default_anti_patterns pattern_text ≡ true
        → lower prompt ≢ before ++ (pattern_text ++ after))
unfolding validate_anti_patterns
validate_anti_patterns-eq-none_iff lower prompt = (
  λ e p before after m q.
      contradiction _ (sym (ap (λ t. contains_text t p) q) ∙ refl)
        (first_anti_pattern-absent (lower prompt) default_anti_patterns e p m)
        (contains_text-intro before p after),
  λ h. absent-first_anti_pattern (lower prompt) default_anti_patterns (λ p m. absent p (h p) m),
)
  where
    contradiction : (b : Bool) {c : Bool} → b ≡ c → c ≡ false → b ≡ true → ⊥
    contradiction b x y z = cc

    absent :
        (p : Text)
        → ((before after : Text)
            → contains default_anti_patterns p ≡ true
            → lower prompt ≢ before ++ (p ++ after))
        → contains default_anti_patterns p ≡ true
        → contains_text (lower prompt) p ≡ false
    absent p h m = elim (Bool-cases (contains_text (lower prompt) p)) [
      | inl found ↦
          let (before, after, e) = contains_text-split (lower prompt) p found in
          absurd (h before after m e)
      | inr missing ↦ missing
    ]

replace_from-same : (old new s : Text) → contains_text s old ≡ false → replace_from 0 old new s ≡ s
unfolding replace_from contains_text
replace_from-same old new [] h = refl
replace_from-same old new (c ∷ s) h =
    let (here, there) = or_false (has_prefix (c ∷ s) old) (contains_text s old) h in
    rw here (ap (λ t. c ∷ t) (replace_from-same old new s there))

-- No variable stands in the text in either form.
abbrev pub no_placeholder : List (Text × Text) → Text → Bool
no_placeholder vars s =
    all
      (λ (v : Text × Text).
        not (contains_text s (braces v.0)) && not (contains_text s (dollar v.0)))
      vars

-- A prompt in which no variable stands, in either form, and which has no opening of a template, is
-- given back as it is, in whichever order the variables are replaced.
pub inject_variables-same :
    (execute : Text → List (Text × Text) → Option (Text ⊎ Text)) (prompt : Text)
    (vars : List (Text × Text))
    → no_placeholder vars prompt ≡ true
    → contains_text prompt (text "{{ ") ≡ false
    → contains_text prompt (text "{% ") ≡ false
    → inject_variables execute prompt vars ≡ inl prompt
unfolding inject_variables replace_variables
inject_variables-same execute prompt vars h b p =
    if_elim (λ (r : Text ⊎ Text). r ≡ inl prompt) (is_empty vars) (λ _. refl)
      (λ _. rw (unchanged vars h, b, p) refl)
  where
    unchanged :
        (vs : List (Text × Text))
        → no_placeholder vs prompt ≡ true
        → replace_variables vs prompt ≡ prompt
    unchanged [] h = refl
    unchanged ((key, value) ∷ vs) h =
        let (own, there) = and_split _ (no_placeholder vs prompt) h in
        let (x, y) = and_split _ _ own in
        rw
          (
            replace_from-same (braces key) value prompt (not-true _ x),
            replace_from-same (dollar key) value prompt (not-true _ y),
          )
          (unchanged vs there)
