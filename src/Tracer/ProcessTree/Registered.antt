-- ===== src/Tracer/ProcessTree/Registered.antt =====
-- The shared map holds exactly the processes of the tree, each once.
use sio2jail.Common.{
  ℕ, ◌+◌, ◌-◌, ◌≤◌, ◌<◌, ◌≡◌, refl, true, false, ◌==◌, ltb, if◌then◌else◌, List, [], ◌∷◌, count,
  count-append, arith,
}
use sio2jail.System.{done, contains}
use sio2jail.Tracer.ProcessTree.{
  Forest, end, process, ProcessTree, make_root, owns, erase, get_process, has_child, children_of,
  insert_child, add_child, remove_child, remove_under, pids, destroyed, destroyed_under, erase_all,
  del_child,
}

-- How often a process stands in the forest.
unfoldable pub occurs : ℕ → Forest → ℕ
occurs q end = 0
occurs q (process p c s) = (if p == q then 1 else 0) + (occurs q c + occurs q s)

pub record Registered (t : ProcessTree) : Type 0 where
  pub registered : (q : ℕ) → count q t.whole_tree_info ≡ occurs q t.forest
  pub once : (q : ℕ) → occurs q t.forest ≤ 1

count-erase :
    (q p : ℕ) (xs : List ℕ) → count q (erase p xs) ≡ count q xs - (if p == q then 1 else 0)
unfolding erase
count-erase q p [] = ground arith
count-erase q p (x ∷ xs) = ground (arith, count-erase q p xs)

count-erase_all : (q : ℕ) (ps xs : List ℕ) → count q (erase_all ps xs) ≡ count q xs - count q ps
unfolding erase_all
count-erase_all q [] xs = omega arith
count-erase_all q (p ∷ ps) xs = omega (arith, count-erase q p xs, count-erase_all q ps (erase p xs))

count-absent : (q : ℕ) (xs : List ℕ) → contains q xs ≡ false → count q xs ≡ 0
unfolding contains
count-absent q [] h = refl
count-absent q (x ∷ xs) h = ground (arith, count-absent q xs)

pub count-pids : (q : ℕ) (f : Forest) → count q (pids f) ≡ occurs q f
unfolding pids occurs
count-pids q end = refl
count-pids q (process p c s) =
    omega (arith, count-append q (pids c) (pids s), count-pids q c, count-pids q s)

occurs-remove_child :
    (q pid : ℕ) (f : Forest)
    → occurs q (remove_child pid f) + count q (destroyed pid f) ≡ occurs q f
unfolding occurs remove_child destroyed
occurs-remove_child q pid end = omega arith
occurs-remove_child q pid (process p c s) =
    ground (arith, count-pids q c, occurs-remove_child q pid s)

occurs-remove_under :
    (q parent pid : ℕ) (f : Forest)
    → occurs q (remove_under parent pid f) + count q (destroyed_under parent pid f) ≡ occurs q f
unfolding occurs remove_under destroyed_under
occurs-remove_under q parent pid end = omega arith
occurs-remove_under q parent pid (process p c s) = ground (
  arith,
  occurs-remove_child q pid c,
  occurs-remove_under q parent pid c,
  occurs-remove_under q parent pid s,
  count-append q (destroyed_under parent pid c) (destroyed_under parent pid s),
)

insert_child_absent :
    (q parent pid : ℕ) (f : Forest)
    → occurs parent f ≡ 0
    → occurs q (insert_child parent pid f) ≡ occurs q f
unfolding occurs insert_child
insert_child_absent q parent pid end h = refl
insert_child_absent q parent pid (process p c s) h =
    ground (arith, insert_child_absent q parent pid c, insert_child_absent q parent pid s)

occurs-insert_child :
    (q parent pid : ℕ) (f : Forest)
    → occurs parent f ≡ 1
    → occurs q (insert_child parent pid f) ≡ (if pid == q then 1 else 0) + occurs q f
unfolding occurs insert_child
occurs-insert_child q parent pid end h = omega arith
occurs-insert_child q parent pid (process p c s) h = ground (
  arith,
  occurs-insert_child q parent pid c,
  occurs-insert_child q parent pid s,
  insert_child_absent q parent pid c,
  insert_child_absent q parent pid s,
)

pub owns-occurs : (q : ℕ) (f : Forest) → owns q f ≡ ltb 0 (occurs q f)
unfolding owns occurs
owns-occurs q end = refl
owns-occurs q (process p c s) = ground (arith, owns-occurs q c, owns-occurs q s)

pub has_child-occurs : (q : ℕ) (f : Forest) → has_child q f ≡ true → 0 < occurs q f
unfolding has_child occurs
has_child-occurs q end h = cc
has_child-occurs q (process p c s) h = ground (arith, has_child-occurs q s)

pub occurs-children_of : (q parent : ℕ) (f : Forest) → occurs q (children_of parent f) ≤ occurs q f
unfolding children_of occurs
occurs-children_of q parent end = omega arith
occurs-children_of q parent (process p c s) =
    ground (arith, occurs-children_of q parent c, occurs-children_of q parent s)

contains-count : (q : ℕ) (xs : List ℕ) → contains q xs ≡ ltb 0 (count q xs)
unfolding contains
contains-count q [] = refl
contains-count q (x ∷ xs) = ground (arith, contains-count q xs)

pub make_root-Registered : (pid : ℕ) → Registered (make_root pid)
unfolding make_root occurs
make_root-Registered pid = record { registered = λ q. ground arith; once = λ q. ground arith }

-- In a tree whose map is right, a process is found exactly if it stands in the tree, and the
-- search changes nothing.
pub get_process_lem :
    (q : ℕ) (t : ProcessTree) → Registered t → get_process q t ≡ (ltb 0 (occurs q t.forest), t)
unfolding get_process
get_process_lem q t r =
    ground (arith, contains-count q t.whole_tree_info, owns-occurs q t.forest, r.registered q)

-- What could be added did not stand in the tree.
pub add_child_absent :
    (parent pid : ℕ) (t t' : ProcessTree)
    → Registered t
    → add_child parent pid t ≡ done t'
    → occurs pid t.forest ≡ 0
unfolding add_child
add_child_absent parent pid t t' r h =
    ground (arith, contains-count pid t.whole_tree_info, r.registered pid)

abbrev added : ℕ → ℕ → ProcessTree → ProcessTree
added parent pid t = record {
  forest = insert_child parent pid t.forest;
  whole_tree_info = pid ∷ t.whole_tree_info;
}

add_child-done :
    (parent pid : ℕ) (t : ProcessTree)
    → Registered t
    → occurs pid t.forest ≡ 0
    → add_child parent pid t ≡ done (added parent pid t)
unfolding add_child
add_child-done parent pid t r h = ground (
  arith,
  contains-count pid t.whole_tree_info,
  r.registered pid,
  has_child-occurs pid (children_of parent t.forest),
  occurs-children_of pid parent t.forest,
)

added-Registered :
    (parent pid : ℕ) (t : ProcessTree)
    → Registered t
    → occurs parent t.forest ≡ 1
    → occurs pid t.forest ≡ 0
    → Registered (added parent pid t)
added-Registered parent pid t r hp h = record {
  registered = λ q. ground (arith, r.registered q, occurs-insert_child q parent pid t.forest hp);
  once = λ q. ground (arith, r.once q, occurs-insert_child q parent pid t.forest hp);
}

-- What the next theorem says of a added process.
abbrev pub Added : ℕ → ℕ → ProcessTree → Type 0
Added parent pid t =
    (t' : ProcessTree) × (add_child parent pid t ≡ done t')
    × Registered t'
    × ((q : ℕ) → occurs q t'.forest ≡ (if pid == q then 1 else 0) + occurs q t.forest)

-- A new process under one that stands in the tree trips no assertion, keeps the map right, and
-- adds exactly that process.
pub add_child-Registered :
    (parent pid : ℕ) (t : ProcessTree)
    → Registered t
    → 0 < occurs parent t.forest
    → occurs pid t.forest ≡ 0
    → Added parent pid t
add_child-Registered parent pid t r hp h =
    let one : occurs parent t.forest ≡ 1 = omega (arith, r.once parent) in
    (
      added parent pid t,
      add_child-done parent pid t r h,
      added-Registered parent pid t r one h,
      λ q. occurs-insert_child q parent pid t.forest one,
    )

abbrev removed : ℕ → ℕ → ProcessTree → ProcessTree
removed parent pid t = record {
  forest = remove_under parent pid t.forest;
  whole_tree_info = erase_all (destroyed_under parent pid t.forest) t.whole_tree_info;
}

-- What the next theorem says of a removed process.
abbrev pub Removed : ℕ → ℕ → ProcessTree → Type 0
Removed parent pid t =
    (t' : ProcessTree) × (del_child parent pid t ≡ done t')
    × Registered t'
    × ((q : ℕ)
        → occurs q t'.forest + count q (destroyed_under parent pid t.forest) ≡ occurs q t.forest)

-- Deleting a child of a process trips no assertion and keeps the map right: what is gone from both
-- are the processes destroyed with the child.
pub del_child-Registered :
    (parent pid : ℕ) (t : ProcessTree)
    → Registered t
    → has_child pid (children_of parent t.forest) ≡ true
    → Removed parent pid t
unfolding del_child
del_child-Registered parent pid t r h =
    let gone = λ (q : ℕ). occurs-remove_under q parent pid t.forest in
    (
      removed parent pid t,
      rw h,
      record {
        registered = λ q. omega (
          arith,
          gone q,
          r.registered q,
          count-erase_all q (destroyed_under parent pid t.forest) t.whole_tree_info,
        );
        once = λ q. omega (arith, gone q, r.once q);
      },
      gone,
    )
