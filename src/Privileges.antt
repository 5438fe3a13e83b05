-- ===== src/Privileges.antt =====
-- priv/PrivListener.cc: the dropping of capabilities and the secure bits. The last capability of the
-- headers and the answer of the check for a kernel of at least 4.3 are arguments.
pub mod Dropped
mod Examples
use Prim.Native.Nat.{bit_and, bit_or}
use sio2jail.Common.{ℕ, zero, suc, ◌+◌, Bool, true, false, ◌==◌, if◌then◌else◌, List, [], ◌∷◌}
use sio2jail.System.{
  M, ◌>>=◌, ◌>>◌, pure, get_securebits, set_securebits, clear_ambient, no_new_privs, capset_empty,
  capbset_drop, with_errno_check, with_errno_check_, eperm, einval,
}

abbrev pub secbit_noroot : ℕ
secbit_noroot = 1 + 2

abbrev pub secbit_no_cap_ambient_raise : ℕ
secbit_no_cap_ambient_raise = 64 + 128

-- The constructor: the secure bits of the process.
unfoldable pub make : M ℕ
unfolding with_errno_check
make = do r ← with_errno_check [] get_securebits; pure r.value

-- `dropBSet` for the capabilities from one on.
unfoldable pub drop_from : ℕ → ℕ → M (Unit {0})
unfolding with_errno_check_
drop_from zero capability = pure tt
drop_from (suc count) capability = do
  with_errno_check_ (einval ∷ []) (capbset_drop capability)
  drop_from count (suc capability)

unfoldable pub drop_b_set : ℕ → M (Unit {0})
unfolding drop_from
drop_b_set cap_last_cap = drop_from (suc cap_last_cap) 0

-- The bits are noted before the call, which may fail with EPERM.
unfoldable pub add_secure_bits : ℕ → ℕ → M ℕ
unfolding with_errno_check_
add_secure_bits bits secure_bits =
    if bit_and secure_bits bits == bits
    then pure secure_bits
    else (with_errno_check_ (eperm ∷ []) (set_securebits (bit_or secure_bits bits))
        >> pure (bit_or secure_bits bits))

unfoldable pub forbid_ambient : Bool → ℕ → M ℕ
unfolding add_secure_bits
forbid_ambient false secure_bits = pure secure_bits
forbid_ambient true secure_bits = add_secure_bits secbit_no_cap_ambient_raise secure_bits

unfoldable pub no_new_privileges : Bool → ℕ → M ℕ
unfolding add_secure_bits forbid_ambient with_errno_check_
no_new_privileges since_4_3 secure_bits = do
  noroot ← add_secure_bits secbit_noroot secure_bits
  ambient ← forbid_ambient since_4_3 noroot
  with_errno_check_ [] no_new_privs
  pure ambient

unfoldable pub clear_ambient_caps : Bool → M (Unit {0})
unfolding with_errno_check_
clear_ambient_caps false = pure tt
clear_ambient_caps true = with_errno_check_ [] clear_ambient

unfoldable pub drop_caps : Bool → ℕ → M ℕ
unfolding add_secure_bits clear_ambient_caps with_errno_check_
drop_caps since_4_3 secure_bits = do
  noroot ← add_secure_bits secbit_noroot secure_bits
  clear_ambient_caps since_4_3
  with_errno_check_ [] capset_empty
  pure noroot

-- `onPostForkParent` and `onPostForkChild` do the same.
unfoldable pub on_post_fork_child : ℕ → Bool → ℕ → M ℕ
unfolding drop_b_set no_new_privileges drop_caps
on_post_fork_child cap_last_cap since_4_3 secure_bits = do
  drop_b_set cap_last_cap
  s ← no_new_privileges since_4_3 secure_bits
  drop_caps since_4_3 s

unfoldable pub on_post_fork_parent : ℕ → Bool → ℕ → M ℕ
unfolding drop_b_set no_new_privileges drop_caps
on_post_fork_parent cap_last_cap since_4_3 secure_bits = do
  drop_b_set cap_last_cap
  s ← no_new_privileges since_4_3 secure_bits
  drop_caps since_4_3 s
