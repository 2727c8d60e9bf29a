-- ===== src/Paths.antt =====
-- The checks of file paths: SandboxGuard of internal/authz/sandbox_guard.go, and ValidateInDir and
-- ValidateID of internal/pathutil/pathutil.go.
pub mod Inside
mod Examples
use eval_prompt.Prelude.{
  Bool, true, false, not, ◌||◌, Option, none, some, if◌then◌else◌, nat_eq, list_eq, Text, text,
  is_empty,
}
use eval_prompt.Prelude.Strings.{has_prefix, contains_text}

-- What path/filepath offers: Clean, IsAbs and Join of two elements.
pub record FilePath : Type 0 where
  pub clean : Text → Text
  pub is_abs : Text → Bool
  pub join : Text → Text → Text

pub data PathError : Type 0 where
  path_traversal outside_sandbox empty_path : PathError

-- The path cleaned, and made absolute below the directory if it is not.
unfoldable pub resolve : FilePath → Text → Text → Text
resolve fp dir path =
    let clean_path = fp.clean path in
    if not (fp.is_abs clean_path) then fp.clean (fp.join dir clean_path) else clean_path

pub record SandboxGuard : Type 0 where
  pub root_dir : Text

unfoldable pub new_sandbox_guard : FilePath → Text → SandboxGuard
new_sandbox_guard fp root_dir = record { root_dir = fp.clean root_dir }

unfoldable pub validate_path : FilePath → SandboxGuard → Text → Option PathError
unfolding resolve
validate_path fp g path =
    if contains_text path (text "..")
    then some path_traversal
    else if not (has_prefix (resolve fp g.root_dir path) g.root_dir)
    then some outside_sandbox
    else none

unfoldable pub is_path_safe : FilePath → SandboxGuard → Text → Bool
is_path_safe fp g path = elim (validate_path fp g path) [ none ↦ true | some _ ↦ false ]

-- The base directory is cleaned for the test alone, and not before the path is joined to it.
unfoldable pub validate_in_dir : FilePath → Text → Text → Option PathError
unfolding resolve
validate_in_dir fp path base_dir =
    if is_empty path
    then some empty_path
    else if contains_text path (text "..")
    then some path_traversal
    else if not (has_prefix (resolve fp base_dir path) (fp.clean base_dir))
    then some path_traversal
    else none

unfoldable pub validate_id : Text → Option PathError
validate_id id =
    if is_empty id
    then some empty_path
    else if contains_text id (text "..")
    then some path_traversal
    else if contains_text id (text "/") || contains_text id (text "\\")
    then some path_traversal
    else none
