-- ===== src/Tracer/ProcessTree/Destroyed.antt =====
-- What is destroyed with a deleted process: the process and everything below it.
use sio2jail.Common.{
  ℕ, ◌+◌, ◌≤◌, ◌<◌, ◌≡◌, ◌⊎◌, subst, true, false, ◌==◌, if◌then◌else◌, count, count-append, arith,
}
use sio2jail.System.{done}
use sio2jail.Tracer.ProcessTree.{
  Forest, end, process, ProcessTree, get_process, has_child, children_of, destroyed,
  destroyed_under, del_child,
}
use sio2jail.Tracer.ProcessTree.Registered.{
  occurs, Registered, count-pids, has_child-occurs, occurs-children_of, owns-occurs,
  del_child-Registered, get_process_lem,
}

-- The process itself, and everything below it, is destroyed with a child of a list of children.
below-destroyed :
    (q pid : ℕ) (f : Forest)
    → has_child pid f ≡ true
    → occurs pid f ≤ 1
    → (if pid == q then 1 else 0) + occurs q (children_of pid f) ≤ count q (destroyed pid f)
unfolding has_child occurs children_of destroyed
below-destroyed q pid end h once = ground arith
below-destroyed q pid (process p c s) h once =
    ground
      (arith, count-pids q c, has_child-occurs pid s, owns-occurs pid c, below-destroyed q pid s)

child-occurs :
    (parent pid : ℕ) (f : Forest) → has_child pid (children_of parent f) ≡ true → 0 < occurs pid f
child-occurs parent pid f h =
    omega (arith, has_child-occurs pid (children_of parent f) h, occurs-children_of pid parent f)

-- The same for the children of a process of the tree.
below-destroyed_under :
    (q parent pid : ℕ) (f : Forest)
    → has_child pid (children_of parent f) ≡ true
    → occurs pid f ≤ 1
    → (if pid == q then 1 else 0) + occurs q (children_of pid f)
      ≤ count q (destroyed_under parent pid f)
unfolding has_child occurs children_of destroyed_under
below-destroyed_under q parent pid end h once = ground arith
below-destroyed_under q parent pid (process p c s) h once = ground (
  arith,
  below-destroyed q pid c,
  has_child-occurs pid c,
  child-occurs parent pid c,
  child-occurs parent pid s,
  owns-occurs pid c,
  below-destroyed_under q parent pid c,
  below-destroyed_under q parent pid s,
  count-append q (destroyed_under parent pid c) (destroyed_under parent pid s),
)

-- When a child of a process is deleted, the tracer does not know the child from then on, nor any
-- process that stands below it in the tree, so that the threads that the child has started are
-- forgotten with it, whether or not they still run.
pub del_child_forgets :
    (parent pid q : ℕ) (t t' : ProcessTree)
    → Registered t
    → has_child pid (children_of parent t.forest) ≡ true
    → (q ≡ pid) ⊎ (0 < occurs q (children_of pid t.forest))
    → del_child parent pid t ≡ done t'
    → get_process q t' ≡ (false, t')
del_child_forgets parent pid q t t' r h below e =
    let (u, made, ru, gone) = del_child-Registered parent pid t r h in
    let same : u ≡ t' = cc in
    let known : Registered t' = subst Registered same ru in
    let destroyed_too : 0 < count q (destroyed_under parent pid t.forest) =
      ground (arith, below-destroyed_under q parent pid t.forest h (r.once pid), below) in
    let absent : occurs q t'.forest ≡ 0 =
      subst (λ v. occurs q v.forest ≡ 0) same (omega (arith, gone q, r.once q)) in
    ground (arith, get_process_lem q t' known, absent)
