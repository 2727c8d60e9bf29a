-- ===== src/Variants/Examples.antt =====
-- Work items with a strategy (internal/service/eval).
use eval_prompt.Prelude.{◌+◌, ◌≡◌, refl, true, false, [], ◌∷◌, All, nat_eq, list_eq, text, is_empty}
use eval_prompt.Prelude.Values.{str}
use eval_prompt.Prelude.Strings.{contains_text}
use eval_prompt.Prelude.Spaces.{fields}
use eval_prompt.Variants.{
  TestCase, split, variant, position_swap, extract_entity_name, injection_strategy, to_input,
  generate_work_items,
}
use eval_prompt.Variants.Kept.{Ends, covered, generate_work_items-covered}

abbrev flight_case : TestCase
flight_case = record {
  id = text "t1";
  input = [];
  expected = text "Flight 123";
  prompt = text "When does Alice land?";
}

abbrev empty_case : TestCase
empty_case = record { id = text "t2"; input = []; expected = []; prompt = [] }

generate_work_items-covered_example :
    let items =
      generate_work_items
        (λ i. (i + 48) ∷ [])
        (injection_strategy (text "constraint_conflict"))
        (flight_case ∷ empty_case ∷ []) in
    All {0, 0} Ends items
    × All {0, 0}
        (λ tc. is_empty tc.prompt ≡ false → covered items tc ≡ true)
        (flight_case ∷ empty_case ∷ [])
generate_work_items-covered_example =
    generate_work_items-covered (λ i. (i + 48) ∷ []) (text "constraint_conflict")
      (flight_case ∷ empty_case ∷ []) refl

swap_input :
    position_swap (record (to_input flight_case) { candidate = text "a vs b" })
    ≡ variant (to_input flight_case) (text "b vs a") (
        (text "injection_strategy", str (text "position_swap"))
        ∷ (text "original_position", str (text "first"))
        ∷ (text "swapped_to", str (text "second"))
        ∷ [])
      ∷ []
unfolding position_swap split contains_text
swap_input = refl

names : extract_entity_name (to_input flight_case) ≡ text "When"
unfolding extract_entity_name fields
names = refl
