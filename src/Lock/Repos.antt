-- ===== src/Lock/Repos.antt =====
-- What AddRepo, RemoveRepo and GetCurrentIfValid of internal/lock/repo_lock.go keep and do.
use eval_prompt.Prelude.{
  ℕ, ◌≡◌, refl, Bool, true, false, not, ◌&&◌, ◌||◌, none, some, List, [], ◌∷◌, arith, if◌then◌else◌,
  ◌==◌, list_beq_iff, nat_eq, list_eq, Text, is_empty,
}
use eval_prompt.Lock.{
  RepoEntry, RepoLock, add_entry, add_repo, remove_entry, remove_repo, get_current, has_path,
  get_current_if_valid,
}

-- No two entries have the same path.
abbrev pub distinct_paths : List RepoEntry → Bool
distinct_paths [] = true
distinct_paths (entry ∷ repos) = not (has_path entry.path repos) && distinct_paths repos

has_path-add_entry :
    (clean_path path : Text) (now : ℕ) (repos : List RepoEntry)
    → has_path path (add_entry clean_path now repos) ≡ (has_path path repos || clean_path == path)
unfolding add_entry
has_path-add_entry clean_path path now [] = ground arith
has_path-add_entry clean_path path now (entry ∷ repos) =
    ground (arith, has_path-add_entry clean_path path now repos, list_beq_iff entry.path clean_path)

distinct_paths-add_entry :
    (clean_path : Text) (now : ℕ) (repos : List RepoEntry)
    → distinct_paths repos ≡ true
    → distinct_paths (add_entry clean_path now repos) ≡ true
unfolding add_entry
distinct_paths-add_entry clean_path now [] h = refl
distinct_paths-add_entry clean_path now (entry ∷ repos) h = ground (
  arith,
  distinct_paths-add_entry clean_path now repos,
  has_path-add_entry clean_path entry.path now repos,
  list_beq_iff entry.path clean_path,
  list_beq_iff clean_path entry.path,
)

-- The entries that RemoveRepo leaves.
abbrev left : Text → List RepoEntry → List RepoEntry
left path repos = elim (remove_entry path repos) [ none ↦ repos | some repos' ↦ repos' ]

left-cons :
    (path : Text) (entry : RepoEntry) (repos : List RepoEntry)
    → left path (entry ∷ repos) ≡ (if entry.path == path then repos else entry ∷ left path repos)
unfolding remove_entry
left-cons path entry repos = ground arith

remove_entry-none :
    (path : Text) (repos : List RepoEntry)
    → remove_entry path repos ≡ none
    → has_path path repos ≡ false
unfolding remove_entry
remove_entry-none path [] h = refl
remove_entry-none path (entry ∷ repos) h = ground (arith, remove_entry-none path repos)

has_path-left :
    (path other : Text) (repos : List RepoEntry)
    → distinct_paths repos ≡ true
    → has_path other (left path repos) ≡ (has_path other repos && not (path == other))
has_path-left path other [] d = unfold remove_entry in refl
has_path-left path other (entry ∷ repos) d = rw (left-cons path entry repos) (
    ground (
      arith,
      has_path-left path other repos,
      list_beq_iff entry.path path,
      list_beq_iff path other,
      list_beq_iff entry.path other,
    ))

distinct_paths-left :
    (path : Text) (repos : List RepoEntry)
    → distinct_paths repos ≡ true
    → distinct_paths (left path repos) ≡ true
distinct_paths-left path [] d = unfold remove_entry in refl
distinct_paths-left path (entry ∷ repos) d =
    rw (left-cons path entry repos)
      (ground (arith, distinct_paths-left path repos, has_path-left path entry.path repos))

-- AddRepo keeps the entries of a lock distinct, and then exactly the paths of before and the clean
-- path have an entry.
pub add_repo_lem :
    (clean : Text → Text) (path other : Text) (now : ℕ) (l : RepoLock)
    → distinct_paths l.repos ≡ true
    → (distinct_paths (add_repo clean path now l).repos ≡ true)
      × (has_path other (add_repo clean path now l).repos
          ≡ (has_path other l.repos || clean path == other))
      × ((add_repo clean path now l).current ≡ l.current)
unfolding add_repo
add_repo_lem clean path other now l h = (
  distinct_paths-add_entry (clean path) now l.repos h,
  has_path-add_entry (clean path) other now l.repos,
  refl,
)

repos-remove_repo : (path : Text) (l : RepoLock) → (remove_repo path l).repos ≡ left path l.repos
unfolding remove_repo
repos-remove_repo path l = ground arith

-- RemoveRepo keeps the entries of a lock distinct, and then exactly the paths of before other than
-- the given one have an entry.
pub remove_repo_lem :
    (path other : Text) (l : RepoLock)
    → distinct_paths l.repos ≡ true
    → (distinct_paths (remove_repo path l).repos ≡ true)
      × (has_path other (remove_repo path l).repos
          ≡ (has_path other l.repos && not (path == other)))
remove_repo_lem path other l h =
    rw (repos-remove_repo path l)
      (distinct_paths-left path l.repos h, has_path-left path other l.repos h)

-- The current path is not empty and without an entry.
abbrev pub dangling : RepoLock → Bool
dangling l = not (is_empty l.current) && not (has_path l.current l.repos)

-- RemoveRepo leaves no dangling current path where there was none: it clears the current path when
-- it removes that entry.
pub remove_repo-dangling :
    (path : Text) (l : RepoLock)
    → distinct_paths l.repos ≡ true
    → dangling l ≡ false
    → dangling (remove_repo path l) ≡ false
unfolding remove_repo
remove_repo-dangling path l d h = ground (
  arith,
  has_path-left path l.current l.repos d,
  list_beq_iff l.current path,
  list_beq_iff path l.current,
  remove_entry-none path l.repos,
)

-- GetCurrentIfValid gives the current path, or the empty path where the current one dangles.
pub get_current_if_valid_lem :
    (l : RepoLock) → get_current_if_valid l ≡ (if dangling l then [] else get_current l)
unfolding get_current_if_valid
get_current_if_valid_lem l = ground arith
