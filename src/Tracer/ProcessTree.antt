-- ===== src/Tracer/ProcessTree.antt =====
-- tracer/ProcessInfo.{h,cc}: the tree of traced processes. A process owns its children (shared
-- pointers in a map), and all of them share one map of weak pointers from pid to process.
pub mod Registered
pub mod Owner
pub mod Destroyed
use sio2jail.Common.{
  ℕ, Bool, true, false, ◌==◌, if◌then◌else◌, List, [], ◌∷◌, ◌++◌, Option, none, some,
}
use sio2jail.System.{Outcome, done, threw, assertion_exception, contains}

-- A map of children: a process, its own children, and its siblings. The order is of no account.
pub data Forest : Type 0 where
  end : Forest
  process : (pid : ℕ) (children siblings : Forest) → Forest

-- The owned tree, and the keys of the shared map. A weak pointer can be locked as long as its
-- process stands in the tree.
pub record ProcessTree : Type 0 where
  pub forest : Forest
  pub whole_tree_info : List ℕ

unfoldable pub make_root : ℕ → ProcessTree
make_root pid = record { forest = process pid end end; whole_tree_info = pid ∷ [] }

unfoldable pub owns : ℕ → Forest → Bool
owns q end = false
owns q (process p c s) = if p == q then true else if owns q c then true else owns q s

unfoldable pub erase : ℕ → List ℕ → List ℕ
erase p [] = []
erase p (q ∷ pids) = if q == p then pids else q ∷ erase p pids

-- `getProcess`: a key whose pointer has expired is removed.
unfoldable pub get_process : ℕ → ProcessTree → Bool × ProcessTree
unfolding owns erase
get_process pid t =
    if contains pid t.whole_tree_info
    then if owns pid t.forest
      then (true, t)
      else (false, record t { whole_tree_info = erase pid t.whole_tree_info })
    else (false, t)

-- The owner of a process, given the owner of the forest; `none` for a root and a stranger.
unfoldable pub owner : ℕ → Option ℕ → Forest → Option ℕ
owner q me end = none
owner q me (process p c s) =
    if p == q then me else if owns q c then owner q (some p) c else owner q me s

unfoldable pub get_parent : ℕ → ProcessTree → Option ℕ
unfolding owner
get_parent pid t = owner pid none t.forest

-- The children of a process.
unfoldable pub children_of : ℕ → Forest → Forest
children_of q end = end
children_of q (process p c s) =
    if p == q then c else if owns q c then children_of q c else children_of q s

unfoldable pub has_child : ℕ → Forest → Bool
has_child q end = false
has_child q (process p c s) = if p == q then true else has_child q s

unfoldable pub insert_child : ℕ → ℕ → Forest → Forest
insert_child parent pid end = end
insert_child parent pid (process p c s) =
    if p == parent
    then process p (process pid end c) s
    else process p (insert_child parent pid c) (insert_child parent pid s)

-- `addChild` on a process of the tree, with `makeProcessInfo` and the assertions of both.
unfoldable pub add_child : ℕ → ℕ → ProcessTree → Outcome ProcessTree
unfolding has_child children_of insert_child
add_child parent pid t =
    if contains pid t.whole_tree_info
    then threw assertion_exception
    else if has_child pid (children_of parent t.forest)
    then threw assertion_exception
    else done (record {
      forest = insert_child parent pid t.forest;
      whole_tree_info = pid ∷ t.whole_tree_info;
    })

unfoldable pub remove_child : ℕ → Forest → Forest
remove_child pid end = end
remove_child pid (process p c s) = if p == pid then s else process p c (remove_child pid s)

unfoldable pub remove_under : ℕ → ℕ → Forest → Forest
unfolding remove_child
remove_under parent pid end = end
remove_under parent pid (process p c s) =
    if p == parent
    then process p (remove_child pid c) s
    else process p (remove_under parent pid c) (remove_under parent pid s)

unfoldable pub pids : Forest → List ℕ
pids end = []
pids (process p c s) = p ∷ (pids c ++ pids s)

-- The processes that are destroyed with a child: the child, and all that it owns.
unfoldable pub destroyed : ℕ → Forest → List ℕ
unfolding pids
destroyed pid end = []
destroyed pid (process p c s) = if p == pid then p ∷ pids c else destroyed pid s

unfoldable pub destroyed_under : ℕ → ℕ → Forest → List ℕ
unfolding destroyed
destroyed_under parent pid end = []
destroyed_under parent pid (process p c s) =
    if p == parent
    then destroyed pid c
    else destroyed_under parent pid c ++ destroyed_under parent pid s

-- The destructors take the keys of what they destroy out of the shared map.
unfoldable pub erase_all : List ℕ → List ℕ → List ℕ
unfolding erase
erase_all [] keys = keys
erase_all (p ∷ ps) keys = erase_all ps (erase p keys)

unfoldable pub del_child : ℕ → ℕ → ProcessTree → Outcome ProcessTree
unfolding has_child children_of remove_under destroyed_under erase_all
del_child parent pid t =
    if has_child pid (children_of parent t.forest)
    then done (record {
      forest = remove_under parent pid t.forest;
      whole_tree_info = erase_all (destroyed_under parent pid t.forest) t.whole_tree_info;
    })
    else threw assertion_exception
