-- ===== src/Indexer/Invariant.antt =====
-- All operations of plugins/search that change the index, in any order.
use eval_prompt.Prelude.{refl, List, [], ◌∷◌, Text}
use eval_prompt.Indexer.{Assets, Indexer, new_indexer, set_git_bridge, set_persist_dir}
use eval_prompt.Indexer.Store.{Request, run, IsValid, run-IsValid}
use eval_prompt.Indexer.Persist.{Opened, IndexFiles, load}
use eval_prompt.Indexer.RoundTrip.{load-IsValid}
use eval_prompt.Indexer.Reconcile.{RepoFiles, reconcile}
use eval_prompt.Indexer.Reconciled.{reconcile-IsValid}

pub data Change : Type 0 where
  request : Request → Change
  bridge_set : Text → Change
  persist_dir_set : Text → Change
  load_index : IndexFiles → Opened → Change
  reconcile_files : RepoFiles → IndexFiles → (Assets → Assets) → Opened → Change

unfoldable pub change : Change → Indexer → Indexer
unfolding run set_git_bridge set_persist_dir load reconcile
change (request r) ix = run (r ∷ []) ix
change (bridge_set bridge) ix = set_git_bridge bridge ix
change (persist_dir_set dir) ix = set_persist_dir dir ix
change (load_index files file) ix = (load files file ix).0
change (reconcile_files files index_files range file) ix =
    (reconcile files index_files range ix file).0

unfoldable pub changes : List Change → Indexer → Indexer
unfolding change
changes [] ix = ix
changes (c ∷ cs) ix = changes cs (change c ix)

change-IsValid : (c : Change) (ix : Indexer) → IsValid ix → IsValid (change c ix)
unfolding change set_git_bridge set_persist_dir
change-IsValid (request r) ix h = run-IsValid (r ∷ []) ix h
change-IsValid (bridge_set bridge) ix h = h
change-IsValid (persist_dir_set dir) ix h = h
change-IsValid (load_index files file) ix h = load-IsValid files file ix h
change-IsValid (reconcile_files files index_files range file) ix h =
    reconcile-IsValid files index_files range ix file h

-- Whatever Save, Delete, ReInit, Load, Reconcile and the setters do to a new index, in any order
-- and whatever the files say: every asset and its detail stand under their own ID, and no ID
-- twice.
pub changes-IsValid : (cs : List Change) → IsValid (changes cs new_indexer)
unfolding new_indexer changes
changes-IsValid cs = from cs new_indexer (refl, refl)
  where
    from : (cs : List Change) (ix : Indexer) → IsValid ix → IsValid (changes cs ix)
    from [] ix h = h
    from (c ∷ cs) ix h = from cs (change c ix) (change-IsValid c ix h)
