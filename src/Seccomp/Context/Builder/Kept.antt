-- ===== src/Seccomp/Context/Builder/Kept.antt =====
-- The making of the filter takes back no kill reason.
use sio2jail.Common.{ℕ, zero, suc, ◌++◌, Text, List, [], ◌∷◌, Option, none, some}
use sio2jail.Seccomp.Context.{SeccompRule, stable_sort}
use sio2jail.Seccomp.Library.{ArgCmp, LibAction}
use sio2jail.System.{M, Reply, Syscall}
use sio2jail.System.Kept.{Keeps, keeping, bind-Keeps, if-Keeps, pure-Keeps, invoke-Keeps, ask-Keeps}
use sio2jail.Seccomp.Context.Builder.{
  Contexts, or_throw, new_context, make_builder, add_conditions, accept_rule, add_rule,
  add_reversed, add_sets, merge_all, make_context, exporting, without_nulls, read_all, export_to,
  export_filter, on_pre_fork,
}
use sio2jail.Tracer.Tracee.{Arch}

or_throw-Keeps : (r : Reply) → Keeps (or_throw r)
unfolding or_throw
or_throw-Keeps r = search keeping

new_context-Keeps : (arch : Arch) → Keeps (new_context arch)
unfolding new_context
new_context-Keeps arch = search (keeping, or_throw-Keeps) depth 16

make_builder-Keeps : (archs : List Arch) → Keeps (make_builder archs)
unfolding make_builder
make_builder-Keeps [] = pure-Keeps []
make_builder-Keeps (arch ∷ archs) =
    bind-Keeps _ _ (new_context-Keeps arch)
      (λ c. bind-Keeps _ _ (make_builder-Keeps archs) (λ cs. pure-Keeps ((arch, c) ∷ cs)))

add_conditions-Keeps :
    (ctx : ℕ) (action : LibAction) (syscall : ℕ) (cs : List ArgCmp)
    → Keeps (add_conditions ctx action syscall cs)
unfolding add_conditions
add_conditions-Keeps ctx action syscall [] = search keeping
add_conditions-Keeps ctx action syscall (c ∷ cs) = search keeping

accept_rule-Keeps : (r : Reply) → Keeps (accept_rule r)
unfolding accept_rule
accept_rule-Keeps r = search keeping

module _ {S : Type 0} where
  add_rule-Keeps : (ctxs : Contexts) (group : ℕ) (r : SeccompRule S) → Keeps (add_rule ctxs group r)
  unfolding add_rule
  add_rule-Keeps [] group r = pure-Keeps tt
  add_rule-Keeps ((arch, ctx) ∷ ctxs) group r =
      bind-Keeps _ _ (add_conditions-Keeps ctx _ _ _)
        (λ q. bind-Keeps _ _ (accept_rule-Keeps q) (λ u. add_rule-Keeps ctxs group r))

  add_reversed-Keeps :
      (ctxs : Contexts) (group : ℕ) (rs : List (SeccompRule S)) → Keeps (add_reversed ctxs group rs)
  unfolding add_reversed
  add_reversed-Keeps ctxs group [] = pure-Keeps tt
  add_reversed-Keeps ctxs group (r ∷ rs) =
      bind-Keeps _ _ (add_reversed-Keeps ctxs group rs) (λ u. add_rule-Keeps ctxs group r)

  add_sets-Keeps :
      (ctxs : Contexts) (sets : List (List (SeccompRule S))) (last : ℕ)
      → Keeps (add_sets ctxs last sets)
  unfolding add_sets
  add_sets-Keeps ctxs [] last = pure-Keeps tt
  add_sets-Keeps ctxs (rules ∷ sets) last =
      bind-Keeps _ _ (add_reversed-Keeps ctxs (suc last) (stable_sort rules))
        (λ u. add_sets-Keeps ctxs sets (suc last))

merge_all-Keeps : (ctx : ℕ) (cs : Contexts) → Keeps (merge_all ctx cs)
unfolding merge_all
merge_all-Keeps ctx [] = pure-Keeps tt
merge_all-Keeps ctx ((arch, c) ∷ cs) =
    bind-Keeps _ _ (invoke-Keeps _)
      (λ r. bind-Keeps _ _ (or_throw-Keeps r) (λ u. merge_all-Keeps ctx cs))

make_context-Keeps : (cs : Contexts) → Keeps (make_context cs)
unfolding make_context
make_context-Keeps [] = search (keeping, or_throw-Keeps) depth 10
make_context-Keeps ((arch, c) ∷ cs) = search (keeping, merge_all-Keeps)

exporting-Keeps :
    {A : Type 0} (c : Syscall) (next : Reply → M (Option A))
    → ((r : Reply) → Keeps (next r))
    → Keeps (exporting c next)
unfolding exporting
exporting-Keeps c next h = search (keeping, h)

module _ (buffer : List Syscall → Text) where
  collect : ℕ → ℕ → Text → Text → M (Option Text)
  collect fuel fd code bytes = read_all buffer fuel fd (code ++ without_nulls bytes)

  read_all-Keeps : (fuel fd : ℕ) (code : Text) → Keeps (read_all buffer fuel fd code)
  unfolding read_all collect
  read_all-Keeps zero fd code = pure-Keeps none
  read_all-Keeps (suc fuel) fd code = exporting-Keeps _ _ (λ r.
      if-Keeps _ _ _ (pure-Keeps (some code)) (
        bind-Keeps _ (collect fuel fd code) (ask-Keeps (λ k h. buffer h))
          (λ bytes. read_all-Keeps fuel fd _)))

  export_to-Keeps : (fuel ctx fd : ℕ) → Keeps (export_to buffer fuel ctx fd)
  unfolding export_to
  export_to-Keeps fuel ctx fd =
      exporting-Keeps _ _
        (λ r. search (keeping, or_throw-Keeps, exporting-Keeps, read_all-Keeps) depth 12)

  export_filter-Keeps : (fuel ctx : ℕ) → Keeps (export_filter buffer fuel ctx)
  unfolding export_filter
  export_filter-Keeps fuel ctx =
      exporting-Keeps _ _ (λ r. search (keeping, export_to-Keeps) depth 10)

  pub on_pre_fork-Keeps :
      {S : Type 0} (fuel : ℕ) (sets : List (List (SeccompRule S)))
      → Keeps (on_pre_fork buffer fuel sets)
  unfolding on_pre_fork
  on_pre_fork-Keeps fuel sets =
      search (keeping, make_builder-Keeps, add_sets-Keeps, make_context-Keeps, export_filter-Keeps)
        depth 14
