-- ===== src/Tracer/ProcessTree/Owner.antt =====
-- The parent of a process has it among its children.
use sio2jail.Common.{
  ℕ, ◌≤◌, ◌<◌, ◌≡◌, ◌⊎◌, refl, true, Option, none, some, count, count-append, arith,
}
use sio2jail.System.{done}
use sio2jail.Tracer.ProcessTree.{
  Forest, end, process, ProcessTree, owns, owner, get_parent, has_child, children_of, destroyed,
  destroyed_under, del_child,
}
use sio2jail.Tracer.ProcessTree.Registered.{Registered, occurs, owns-occurs, del_child-Registered}

-- Only a process of the forest has children there.
has_child-children_of :
    (q p : ℕ) (f : Forest) → has_child q (children_of p f) ≡ true → owns p f ≡ true
unfolding has_child children_of owns
has_child-children_of q p end h = cc
has_child-children_of q p (process x c s) h = ground (arith, has_child-children_of q p s)

-- In a forest where each process stands once, the owner is that of the forest, or a process with
-- the searched one among its children.
has_child-owner :
    (q p : ℕ) (me : Option ℕ) (f : Forest)
    → ((r : ℕ) → occurs r f ≤ 1)
    → owner q me f ≡ some p
    → ((me ≡ some p) × (has_child q f ≡ true)) ⊎ (has_child q (children_of p f) ≡ true)
unfolding owner has_child children_of occurs
has_child-owner q p me end once h = cc
has_child-owner q p me (process x c s) once h = ground (
  arith,
  once p,
  owns-occurs p c,
  owns-occurs p s,
  has_child-children_of q p c,
  has_child-children_of q p s,
  has_child-owner q p (some x) c (λ r. ground (arith, once r)),
  has_child-owner q p me s (λ r. ground (arith, once r)),
)

-- The parent of a process in a tree whose map is right has it as a child, so that its deletion trips
-- no assertion.
pub get_parent-has_child :
    (q p : ℕ) (t : ProcessTree)
    → Registered t
    → get_parent q t ≡ some p
    → has_child q (children_of p t.forest) ≡ true
unfolding get_parent
get_parent-has_child q p t r h = ground (arith, has_child-owner q p none t.forest r.once)

count-destroyed : (q : ℕ) (f : Forest) → has_child q f ≡ true → 0 < count q (destroyed q f)
unfolding has_child destroyed
count-destroyed q end h = cc
count-destroyed q (process x c s) h = ground (arith, count-destroyed q s)

count-destroyed_under :
    (q p : ℕ) (f : Forest)
    → ((r : ℕ) → occurs r f ≤ 1)
    → has_child q (children_of p f) ≡ true
    → 0 < count q (destroyed_under p q f)
unfolding has_child children_of destroyed_under occurs
count-destroyed_under q p end once h = cc
count-destroyed_under q p (process x c s) once h = ground (
  arith,
  once p,
  owns-occurs p c,
  owns-occurs p s,
  count-destroyed q c,
  has_child-children_of q p c,
  has_child-children_of q p s,
  count-destroyed_under q p c (λ r. ground (arith, once r)),
  count-destroyed_under q p s (λ r. ground (arith, once r)),
  count-append q (destroyed_under p q c) (destroyed_under p q s),
)

owner_absent : (q : ℕ) (me : Option ℕ) (f : Forest) → occurs q f ≡ 0 → owner q me f ≡ none
unfolding occurs owner
owner_absent q me end h = refl
owner_absent q me (process x c s) h = ground (arith, owns-occurs q c, owner_absent q me s)

-- A process that is not in the tree has no parent there.
pub get_parent_absent : (q : ℕ) (t : ProcessTree) → occurs q t.forest ≡ 0 → get_parent q t ≡ none
unfolding get_parent
get_parent_absent q t h = owner_absent q none t.forest h

-- What the next theorem says of a deleted process.
abbrev pub Deleted : ℕ → ℕ → ProcessTree → Type 0
Deleted p q t =
    (t' : ProcessTree) × (del_child p q t ≡ done t') × Registered t' × (get_parent q t' ≡ none)

-- Where the map is right, a process with a parent is deleted without an assertion that is tripped;
-- it has no parent then, and the map stays right.
pub del_child_of_parent :
    (p q : ℕ) (t : ProcessTree) → Registered t → get_parent q t ≡ some p → Deleted p q t
del_child_of_parent p q t r h =
    let child = get_parent-has_child q p t r h in
    let (t', e, r', gone) = del_child-Registered p q t r child in
    let deleted = count-destroyed_under q p t.forest r.once child in
    (t', e, r', get_parent_absent q t' (omega (arith, gone q, r.once q)))
