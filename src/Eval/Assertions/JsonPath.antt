-- ===== src/Eval/Assertions/JsonPath.antt =====
-- What getJSONPath of plugins/eval/assertions.go finds.
use eval_prompt.Prelude.{
  ℕ, ◌≡◌, true, false, some, List, ◌∷◌, ◌++◌, arith, nat_eq, list_eq, Text, text,
}
use eval_prompt.Prelude.Int.{pos, negsuc}
use eval_prompt.Prelude.Strings.{has_prefix, trim_prefix, has_suffix, trim_suffix}
use eval_prompt.Prelude.Values.{Json, Items, get_item, arr}
use eval_prompt.Eval.Assertions.Matching.{has_suffix-append}
use eval_prompt.Eval.Assertions.{Platform, index_step, path_step, walk_path, path_not_found, panic}

-- A part with one opening bracket, such as `[0]`, never reads an element of an array: the bracket
-- is trimmed before the test for it, and the path ends in an error whatever parts follow.
pub one_bracket_fails :
    (os : Platform) (index : Text) (parts : List Text) (vs : Items)
    → has_prefix index (text "[") ≡ false
    → walk_path os ((b'[' ∷ index) ∷ parts) (arr vs) ≡ path_not_found index
unfolding walk_path path_step trim_prefix
one_bracket_fails os index parts vs h = ground arith

-- With two opening brackets the element is read, where the number lies within the array.
pub two_brackets_read :
    (os : Platform) (index : Text) (parts : List Text) (vs : Items) (i : ℕ) (v : Json)
    → os.scan_int (trim_suffix (index ++ text "]") (text "]")) ≡ pos i
    → get_item vs i ≡ some v
    → walk_path os ((b'[' ∷ b'[' ∷ (index ++ text "]")) ∷ parts) (arr vs) ≡ walk_path os parts v
unfolding walk_path path_step trim_prefix index_step has_prefix
two_brackets_read os index parts vs i v h e =
    let ends : has_suffix (b'[' ∷ (index ++ text "]")) (text "]") ≡ true =
      has_suffix-append (b'[' ∷ index) (text "]") in
    ground arith

-- A negative number in such a part is not caught by the test for the length: reading panics.
pub negative_index_panics :
    (os : Platform) (index : Text) (parts : List Text) (vs : Items) (i : ℕ)
    → os.scan_int (trim_suffix (index ++ text "]") (text "]")) ≡ negsuc i
    → walk_path os ((b'[' ∷ b'[' ∷ (index ++ text "]")) ∷ parts) (arr vs) ≡ panic
unfolding walk_path path_step trim_prefix index_step has_prefix
negative_index_panics os index parts vs i h =
    let ends : has_suffix (b'[' ∷ (index ++ text "]")) (text "]") ≡ true =
      has_suffix-append (b'[' ∷ index) (text "]") in
    ground arith
