-- ===== src/Limits/Threads/Rules.antt =====
-- limits/ThreadsLimitListener.cc, the rules of the constructor.
use sio2jail.Common.{
  ℕ, bit-le-one, bit_and-pow, ◌≡◌, ◌==◌, if◌then◌else◌, Text, codes, text_eq, List, [], ◌∷◌, Option,
  none, some, ℤ, pos, negsuc, arith,
}
use Prim.Native.Nat.{bit_and}
use sio2jail.Seccomp.Action.{allow, errno, kill, type_of}
use sio2jail.Seccomp.Filter.{masked_eq, all_of, matches, single, on_argument}
use sio2jail.Seccomp.Listener.{choose, stronger}
use sio2jail.Seccomp.Policy.{PolicyState, NamedRule, rule, resolve_rule, rules_of}
use sio2jail.Seccomp.Policy.Decisions.{resolve_all}
use sio2jail.System.{done, enosys}
use sio2jail.Tracer.Tracee.{Tracee, get_syscall_argument}

abbrev pub clone_vm : ℕ
clone_vm = 0x100

-- Of a negative limit, and of any other.
unfoldable pub clone_rules : ℤ → List (NamedRule PolicyState)
unfolding rule masked_eq
clone_rules (negsuc n) = rule (codes "clone") kill ∷ rule (codes "clone3") kill ∷ []
clone_rules (pos n) =
    record { name = codes "clone"; action = allow; filter = masked_eq 2 clone_vm clone_vm }
    ∷ record { name = codes "clone"; action = kill; filter = masked_eq 2 clone_vm 0 }
    ∷ rule (codes "clone3") (errno enosys)
    ∷ rule (codes "nanosleep") allow
    ∷ []

unfoldable pub thread_rules : ℤ → List (NamedRule PolicyState)
unfolding rule clone_rules
thread_rules threads_limit =
    rule (codes "fork") kill ∷ rule (codes "vfork") kill ∷ clone_rules threads_limit

-- If the third argument of a call of clone can be read, then with threads the rules allow the call
-- where the bit of CLONE_VM is set in that argument, and kill otherwise, whatever the flags, which
-- are the first argument, say; without threads they kill it.
pub thread_rules_clone :
    (limit : ℤ) (number : Text → Option ℕ) (n third : ℕ) (tracee : Tracee)
    → number (codes "clone") ≡ some n
    → get_syscall_argument tracee 2 ≡ done third
    → choose (resolve_all number (rules_of (codes "clone") (thread_rules limit))) tracee none
      ≡ done (
          some (elim limit [
            | pos l ↦ if bit_and third 0x100 == 0x100 then allow else kill
            | negsuc l ↦ kill
          ]))
unfolding thread_rules clone_rules rule rules_of text_eq resolve_all resolve_rule choose stronger
    matches all_of masked_eq single on_argument type_of
thread_rules_clone (negsuc l) number n third tracee e f = ground arith
thread_rules_clone (pos l) number n third tracee e f =
    ground (arith, bit_and-pow 8 third, bit-le-one 8 third)
