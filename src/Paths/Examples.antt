-- ===== src/Paths/Examples.antt =====
-- Runs of the path checks of internal/authz/sandbox_guard.go, on paths that are clean already.
use eval_prompt.Prelude.{◌++◌, nat_eq, list_eq, text}
use eval_prompt.Prelude.Strings.{has_prefix}
use eval_prompt.Paths.{FilePath}

abbrev clean_paths : FilePath
clean_paths = record {
  clean = λ path. path;
  is_abs = λ path. has_prefix path (text "/");
  join = λ dir path. dir ++ (text "/" ++ path);
}
