-- ===== src/Files/Descriptor.antt =====
-- common/FD.cc: descriptors, and the writing of a text to one.
pub mod Whole
use sio2jail.Common.{
  ℕ, zero, suc, Bool, true, false, not, ◌&&◌, ◌==◌, if◌then◌else◌, Text, List, [], ◌∷◌, ℤ, pos,
  negsuc, length,
}
use sio2jail.ProcFs.{drop}
use sio2jail.System.{
  M, ◌>>=◌, ◌>>◌, pure, throw, Reply, exception, system_exception, write, close, fcntl, open_file,
  with_errno_check, with_errno_check_, eagain, eintr, ebadf,
}

-- The constructor accepts a descriptor that is not negative.
unfoldable pub descriptor : ℤ → M ℕ
descriptor (pos fd) = pure fd
descriptor (negsuc n) = throw exception

-- `FD::open`.
unfoldable pub open_descriptor : Text → ℕ → M ℕ
unfolding with_errno_check
open_descriptor path flags = do r ← with_errno_check [] (open_file path flags); pure r.value

-- By how many bytes a call of write gets on.
unfoldable pub progress : Reply → ℕ
progress r = if r.failed then 0 else r.value

-- `FD::write`, on what is left of the text: whether it was written before the fuel was used up.
unfoldable pub write_loop : ℕ → ℕ → Bool → Text → M Bool
unfolding with_errno_check progress drop
write_loop zero fd allow_partial rest = pure false
write_loop (suc fuel) fd allow_partial [] = pure true
write_loop (suc fuel) fd allow_partial (c ∷ cs) = do
  r ← with_errno_check (eagain ∷ eintr ∷ []) (write fd (c ∷ cs))
  if not allow_partial && not (progress r == length (c ∷ cs))
      then throw (system_exception r.errno)
      else write_loop fuel fd allow_partial (drop (progress r) (c ∷ cs))

-- `operator<<`, which allows no partial writes; one call decides.
unfoldable pub write_text : ℕ → Text → M Bool
unfolding write_loop
write_text fd text = write_loop 2 fd false text

abbrev pub f_getfd : ℕ
f_getfd = 1

-- `FD::good`; an errno is never negative, so that the loop's body runs once.
unfoldable pub good : ℕ → M Bool
unfolding with_errno_check
good fd = do
  r ← with_errno_check (ebadf ∷ eintr ∷ eagain ∷ []) (fcntl fd f_getfd 0)
  pure (not (r.errno == ebadf))
