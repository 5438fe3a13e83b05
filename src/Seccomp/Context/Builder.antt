-- ===== src/Seccomp/Context/Builder.antt =====
-- seccomp/SeccompContext.{h,cc} and SeccompListener::onPreFork: what libseccomp is called for, and
-- what its failures do. A context is the number that libseccomp gave; what a call of read puts into
-- the buffer is a parameter. Every filter is one that libseccomp can express.
pub mod Given
pub mod Kept
use sio2jail.Common.{
  ℕ, suc, zero, Bool, true, false, not, ltb, ◌==◌, ◌*◌, if◌then◌else◌, Text, List, [], ◌∷◌, ◌++◌,
  Option, none, some,
}
use sio2jail.Seccomp.Action.{lib_action}
use sio2jail.Seccomp.Context.{SeccompRule, arch_code, rule_id, stable_sort}
use sio2jail.Seccomp.Library.{ArgCmp, LibAction, cmp_ge, cmp_lt, act_kill, act_trace}
use sio2jail.System.{
  M, ◌>>=◌, ◌>>◌, pure, throw, exception, system_exception, invoke, with_errno_check,
  with_errno_check_, Reply, Syscall, enosys, seccomp_init, seccomp_arch_remove_native,
  seccomp_arch_add, seccomp_rule_add, seccomp_merge, seccomp_load, seccomp_export_pfc, memfd_create,
  close, ftruncate, lseek_start, read_buffer,
}
use sio2jail.Tracer.Tracee.{Arch}

-- The contexts of a builder, in the order of their architectures.
abbrev pub Contexts : Type 0
Contexts = List (Arch × ℕ)

-- A failure throws an exception without an errno.
unfoldable pub or_throw : Reply → M (Unit {0})
or_throw r = if r.failed then throw exception else pure tt

unfoldable pub new_context : Arch → M ℕ
unfolding or_throw
new_context arch = do
  c ← invoke (seccomp_init (act_trace 0))
  or_throw c
  removed ← invoke (seccomp_arch_remove_native c.value)
  or_throw removed
  added ← invoke (seccomp_arch_add c.value (arch_code arch))
  or_throw added
  pure c.value

-- The constructor of the builder.
unfoldable pub make_builder : List Arch → M Contexts
unfolding new_context
make_builder [] = pure []
make_builder (arch ∷ archs) = do
  c ← new_context arch
  cs ← make_builder archs
  pure ((arch, c) ∷ cs)

abbrev pub first_at_least_zero : ArgCmp
first_at_least_zero = record { arg = 0; op = cmp_ge; datum_a = 0; datum_b = 0 }

abbrev pub first_below_zero : ArgCmp
first_below_zero = record { arg = 0; op = cmp_lt; datum_a = 0; datum_b = 0 }

-- A second call follows the first only where its result is positive.
unfoldable pub add_conditions : ℕ → LibAction → ℕ → List ArgCmp → M Reply
add_conditions ctx action syscall [] = do
  r ← invoke (seccomp_rule_add ctx action syscall (first_at_least_zero ∷ []))
  if not r.failed
      then (if ltb 0 r.value
          then invoke (seccomp_rule_add ctx action syscall (first_below_zero ∷ []))
          else pure r)
      else pure r
add_conditions ctx action syscall (c ∷ cs) = invoke (seccomp_rule_add ctx action syscall (c ∷ cs))

unfoldable pub accept_rule : Reply → M (Unit {0})
accept_rule r = if r.failed then throw (system_exception r.errno) else pure tt

module _ {S : Type 0} where
  -- `Builder::addRule`.
  unfoldable pub add_rule : Contexts → ℕ → SeccompRule S → M (Unit {0})
  unfolding add_conditions accept_rule
  add_rule [] group rule = pure tt
  add_rule ((arch, ctx) ∷ ctxs) group rule = do
    r ←
        add_conditions ctx (lib_action (rule_id group arch) rule.action) rule.syscall
          rule.filter.lib_seccomp_filter_conditions
    accept_rule r
    add_rule ctxs group rule

  -- The rules of a call from the last to the first.
  unfoldable pub add_reversed : Contexts → ℕ → List (SeccompRule S) → M (Unit {0})
  unfolding add_rule
  add_reversed ctxs group [] = pure tt
  add_reversed ctxs group (r ∷ rs) = do add_reversed ctxs group rs; add_rule ctxs group r

  -- The sets in the order of their calls' numbers; ids start after the given one.
  unfoldable pub add_sets : Contexts → ℕ → List (List (SeccompRule S)) → M (Unit {0})
  unfolding add_reversed
  add_sets ctxs last [] = pure tt
  add_sets ctxs last (rules ∷ sets) = do
    add_reversed ctxs (suc last) (stable_sort rules)
    add_sets ctxs (suc last) sets

unfoldable pub merge_all : ℕ → Contexts → M (Unit {0})
unfolding or_throw
merge_all ctx [] = pure tt
merge_all ctx ((arch, c) ∷ cs) = do r ← invoke (seccomp_merge ctx c); or_throw r; merge_all ctx cs

-- The constructor of the context, from a builder.
unfoldable pub make_context : Contexts → M ℕ
unfolding merge_all
make_context [] = do c ← invoke (seccomp_init act_kill); or_throw c; pure c.value
make_context ((arch, c) ∷ cs) = do merge_all c cs; pure c

unfoldable pub load_filter : ℕ → M (Unit {0})
unfolding or_throw
load_filter ctx = do r ← invoke (seccomp_load ctx); or_throw r

unfoldable pub without_nulls : Text → Text
without_nulls [] = []
without_nulls (c ∷ cs) = let rest = without_nulls cs in if c == 0 then rest else c ∷ rest

-- A call of the export that may fail with ENOSYS: the exception is caught there, and nothing is
-- exported.
unfoldable pub exporting : {A : Type 0} → Syscall → (Reply → M (Option A)) → M (Option A)
unfolding with_errno_check
exporting c next = do r ← with_errno_check (enosys ∷ []) c; if r.failed then pure none else next r

module _ (buffer : List Syscall → Text) where
  -- The loop of reads; `none` too when the fuel is out.
  unfoldable pub read_all : ℕ → ℕ → Text → M (Option Text)
  unfolding exporting without_nulls
  read_all zero fd code = pure none
  read_all (suc fuel) fd code = exporting (read_buffer fd) λ r.
      if r.value == 0 then pure (some code) else (do
        bytes ← (λ k w. pure (buffer w.history) k w)
        read_all fuel fd (code ++ without_nulls bytes))

  unfoldable pub export_to : ℕ → ℕ → ℕ → M (Option Text)
  unfolding exporting read_all or_throw
  export_to fuel ctx fd = exporting (ftruncate fd (1024 * 1024)) λ r. do
    exported ← invoke (seccomp_export_pfc ctx fd)
    or_throw exported
    exporting (lseek_start fd) λ q. read_all fuel fd []

  -- The file is closed with its descriptor.
  unfoldable pub export_filter : ℕ → ℕ → M (Option Text)
  unfolding exporting export_to
  export_filter fuel ctx =
      exporting memfd_create
        λ r. do code ← export_to fuel ctx r.value; closed ← invoke (close r.value); pure code

  -- `SeccompListener::onPreFork`, with the rules of the base policy added: the context. What is
  -- exported is logged only.
  unfoldable pub on_pre_fork : {S : Type 0} → ℕ → List (List (SeccompRule S)) → M ℕ
  unfolding make_builder add_sets make_context export_filter
  on_pre_fork fuel sets = do
    ctxs ← make_builder (Arch.x86 ∷ Arch.x86_64 ∷ [])
    add_sets ctxs 0 sets
    ctx ← make_context ctxs
    code ← export_filter fuel ctx
    pure ctx
