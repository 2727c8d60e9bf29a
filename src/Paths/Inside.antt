-- ===== src/Paths/Inside.antt =====
-- What the path checks of internal/authz/sandbox_guard.go and internal/pathutil/pathutil.go accept.
use eval_prompt.Prelude.{◌≡◌, true, false, none, ◌++◌, arith, nat_eq, list_eq, Text, text}
use eval_prompt.Prelude.Strings.{contains_text, has_prefix-append}
use eval_prompt.Paths.{FilePath, resolve, new_sandbox_guard, validate_path}

-- The test is one of texts and not of directories: an absolute path that continues the name of
-- the root directory itself, such as `/data-old/x` for `/data`, is accepted by SandboxGuard, if it
-- is clean and has no `..`.
pub sibling_directory_accepted :
    (fp : FilePath) (root rest : Text)
    → fp.clean root ≡ root
    → fp.clean (root ++ rest) ≡ root ++ rest
    → fp.is_abs (root ++ rest) ≡ true
    → contains_text (root ++ rest) (text "..") ≡ false
    → validate_path fp (new_sandbox_guard fp root) (root ++ rest) ≡ none
unfolding validate_path resolve new_sandbox_guard
sibling_directory_accepted fp root rest c d a n =
    let inside = has_prefix-append root rest in ground arith
