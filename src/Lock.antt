-- ===== src/Lock.antt =====
-- The list of repositories of internal/lock/repo_lock.go, its operations and ValidatePath. The
-- file is read and written by the system; `clean` is filepath.Clean.
pub mod Repos
use eval_prompt.Prelude.{
  ℕ, Bool, true, false, Option, none, some, List, [], ◌∷◌, if◌then◌else◌, any, ◌==◌, nat_eq,
  list_eq, Text, is_empty,
}

pub record RepoEntry : Type 0 where
  pub path : Text
  pub init_at : ℕ

pub record RepoLock : Type 0 where
  pub repos : List RepoEntry
  pub current : Text

-- The loop of AddRepo: the first entry with the path gets the time; without one, an entry is
-- appended.
unfoldable pub add_entry : Text → ℕ → List RepoEntry → List RepoEntry
add_entry clean_path now [] = record { path = clean_path; init_at = now } ∷ []
add_entry clean_path now (entry ∷ repos) =
    let rest = add_entry clean_path now repos in
    if entry.path == clean_path then record entry { init_at = now } ∷ repos else entry ∷ rest

unfoldable pub add_repo : (Text → Text) → Text → ℕ → RepoLock → RepoLock
unfolding add_entry
add_repo clean path now l = record l { repos = add_entry (clean path) now l.repos }

-- The loop of RemoveRepo: the list without the first entry with the path, if there is one.
unfoldable pub remove_entry : Text → List RepoEntry → Option (List RepoEntry)
remove_entry path [] = none
remove_entry path (entry ∷ repos) =
    let rest = remove_entry path repos in
    if entry.path == path
    then some repos
    else elim rest [ none ↦ none | some repos' ↦ some (entry ∷ repos') ]

unfoldable pub remove_repo : Text → RepoLock → RepoLock
unfolding remove_entry
remove_repo path l = elim (remove_entry path l.repos) [
  | none ↦ l
  | some repos ↦ record { repos = repos; current = if l.current == path then [] else l.current }
]

unfoldable pub set_current : Text → RepoLock → RepoLock
set_current path l = record l { current = path }

abbrev pub get_current : RepoLock → Text
get_current l = l.current

-- Whether some entry has the path.
abbrev pub has_path : Text → List RepoEntry → Bool
has_path path repos = any (λ (entry : RepoEntry). entry.path == path) repos

unfoldable pub get_current_if_valid : RepoLock → Text
get_current_if_valid l =
    if is_empty l.current then [] else if has_path l.current l.repos then l.current else []

pub data PathStatus : Type 0 where
  path_valid path_not_found path_not_git : PathStatus

-- What ValidatePath asks of the system: filepath.Abs, os.Stat with IsDir, and whether
-- `git rev-parse --git-dir` succeeds there.
pub record FileSystem : Type 0 where
  pub abs : Text → Option Text
  pub stat_is_dir : Text → Option Bool
  pub git_rev_parse : Text → Bool

unfoldable pub validate_path : FileSystem → Text → PathStatus
validate_path fs path = elim (fs.abs path) [
  | none ↦ path_not_found
  | some abs_path ↦ elim (fs.stat_is_dir abs_path) [
    | none ↦ path_not_found
    | some false ↦ path_not_found
    | some true ↦ if fs.git_rev_parse abs_path then path_valid else path_not_git
  ]
]
