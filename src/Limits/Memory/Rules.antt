-- ===== src/Limits/Memory/Rules.antt =====
-- limits/MemoryLimitListener.cc, the rules of the constructor.
use Prim.Native.Nat.{bit_and}
use sio2jail.Common.{
  ◌∙◌, ℕ, true, leb, ≢→==, ◌-◌, ◌^◌, ◌<◌, ◌≢◌, Bool-cases, inl, inr, refl, not, ◌&&◌, ◌==◌, ltb,
  ◌*◌, if◌then◌else◌, ◌≡◌, Text, codes, text_eq, List, [], ◌∷◌, Option, none, some, ◌/◌, arith,
}
use sio2jail.ProcFs.{lift}
use sio2jail.Seccomp.Action.{trace, type_of}
use sio2jail.Seccomp.Filter.{arg_eq, arg_gt, both, all_of, matches, single, on_argument}
use sio2jail.Seccomp.Listener.{choose, stronger}
use sio2jail.Seccomp.Policy.{NamedRule, resolve_rule, rules_of}
use sio2jail.Seccomp.Policy.Decisions.{resolve_all}
use sio2jail.System.{Kernel, World, M, ◌>>=◌, pure, done}
use sio2jail.Tracer.Action.{TraceAction}
use sio2jail.Tracer.Tracee.{Tracee, get_syscall_argument}
use sio2jail.Limits.Memory.{
  MemoryLimit, memory_limit_margin, mremap_dontunmap, handle_memory_allocation, on_mmap, on_mremap,
}
use sio2jail.Limits.Memory.Allocation.{on_mremap-grows}

abbrev Handler : Type 0
Handler = Tracee → MemoryLimit → M (TraceAction × Tracee × MemoryLimit)

-- The size is read only after the program has called execve.
unfoldable pub mmap_handler : Handler
mmap_handler tracee m = if not m.vm_peak_valid then pure (TraceAction.continue, tracee, m) else (do
  size ← lift (get_syscall_argument tracee 1)
  r ← on_mmap size m
  pure (r.0, tracee, r.1))

unfoldable pub mremap_handler : Handler
mremap_handler tracee m = do
  old_size ← lift (get_syscall_argument tracee 1)
  new_size ← lift (get_syscall_argument tracee 2)
  flags ← lift (get_syscall_argument tracee 3)
  r ← on_mremap old_size new_size flags m
  pure (r.0, tracee, r.1)

abbrev mmap_rule : Text → NamedRule MemoryLimit
mmap_rule name = record {
  name = name;
  action = trace mmap_handler;
  filter = both (arg_eq 0 0) (arg_gt 1 (memory_limit_margin / 2));
}

unfoldable pub memory_rules : List (NamedRule MemoryLimit)
memory_rules =
    mmap_rule (codes "mmap2")
    ∷ mmap_rule (codes "mmap")
    ∷ record {
      name = codes "mremap";
      action = trace mremap_handler;
      filter = arg_gt 2 (memory_limit_margin / 2);
    }
    ∷ []

-- If the first two arguments of a call of mmap can be read, then the limit's rules choose its handler
-- exactly for more than 4 MiB at an address of the kernel's choice, and nothing otherwise; and the
-- handler does to an mmap what `on_mmap` does with the size.
pub memory_rules_mmap :
    (number : Text → Option ℕ) (n address size : ℕ) (tracee : Tracee)
    → number (codes "mmap") ≡ some n
    → get_syscall_argument tracee 0 ≡ done address
    → get_syscall_argument tracee 1 ≡ done size
    → (choose (resolve_all number (rules_of (codes "mmap") memory_rules)) tracee none
        ≡ done (
            if address == 0 && ltb (4 * 1024 * 1024) size then some (trace mmap_handler) else none))
      × ((m : MemoryLimit) (k : Kernel) (w : World)
          → mmap_handler tracee m k w ≡ (on_mmap size m >>= (λ r. pure (r.0, tracee, r.1))) k w)
unfolding memory_rules rules_of text_eq resolve_all resolve_rule choose stronger matches both arg_eq
    arg_gt all_of single on_argument type_of mmap_handler on_mmap lift
memory_rules_mmap number n address size tracee e f g = (
  ground (arith, e, f, g),
  λ m k w. elim (Bool-cases m.vm_peak_valid) [
    | inl valid ↦ rw (valid, g) refl
    | inr early ↦ rw early refl
  ],
)

-- A mapping that grows is an allocation of the growth.
abbrev pub growth_accounted : ℕ → ℕ → MemoryLimit → M (TraceAction × MemoryLimit)
growth_accounted old_size new_size m =
    if leb new_size old_size
    then pure (TraceAction.continue, m)
    else handle_memory_allocation ((new_size - old_size) / 1024) m

on_mremap-growth :
    (old_size new_size flags : ℕ) (m : MemoryLimit)
    → m.vm_peak_valid ≡ true
    → bit_and flags mremap_dontunmap ≢ mremap_dontunmap
    → new_size < 2 ^ 64
    → on_mremap old_size new_size flags m ≡ growth_accounted old_size new_size m
unfolding on_mremap
on_mremap-growth old_size new_size flags m valid unmaps fits =
    elim (Bool-cases (leb new_size old_size)) [
      | inl shrinks ↦ rw (valid, ≢→== _ _ unmaps, shrinks) refl
      | inr grows ↦
          on_mremap-grows old_size new_size flags m valid unmaps (ground (arith, grows)) fits
          ∙ rw grows refl
    ]

-- If the last arguments of a call of mremap can be read, of 64 bits and without MREMAP_DONTUNMAP, then
-- the limit's rules choose its handler exactly for a new size of more than 4 MiB, and nothing
-- otherwise. Once the program has called execve, the handler lets a mapping that does not grow go on,
-- and counts exactly the growth, in whole kilobytes, of any other.
pub memory_rules_mremap :
    (number : Text → Option ℕ) (n old_size new_size flags : ℕ) (tracee : Tracee) (m : MemoryLimit)
    (k : Kernel) (w : World)
    → number (codes "mremap") ≡ some n
    → get_syscall_argument tracee 1 ≡ done old_size
    → get_syscall_argument tracee 2 ≡ done new_size
    → get_syscall_argument tracee 3 ≡ done flags
    → new_size < 2 ^ 64
    → bit_and flags mremap_dontunmap ≢ mremap_dontunmap
    → m.vm_peak_valid ≡ true
    → (choose (resolve_all number (rules_of (codes "mremap") memory_rules)) tracee none
        ≡ done (if ltb (4 * 1024 * 1024) new_size then some (trace mremap_handler) else none))
      × (mremap_handler tracee m k w
          ≡ (growth_accounted old_size new_size m >>= (λ r. pure (r.0, tracee, r.1))) k w)
unfolding memory_rules rules_of text_eq resolve_all resolve_rule choose stronger matches arg_gt
    all_of single on_argument type_of mremap_handler lift
memory_rules_mremap number n old_size new_size flags tracee m k w e f g h fits unmaps valid = (
  ground (arith, e, g),
  rw (f, g, h, on_mremap-growth old_size new_size flags m valid unmaps fits) refl,
)
