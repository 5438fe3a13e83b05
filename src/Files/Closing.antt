-- ===== src/Files/Closing.antt =====
-- files/FilesListener.cc: the child's standard error and the closing of inherited descriptors. The
-- names in /proc/self/fd and the logger's descriptor are parameters.
pub mod Closed
use sio2jail.Common.{
  ℕ, zero, suc, ◌+◌, ◌-◌, ◌^◌, Bool, true, false, not, ◌&&◌, ◌||◌, ltb, leb, ◌==◌, if◌then◌else◌,
  Text, codes, List, [], ◌∷◌, ◌++◌, Option, none, some, read_digits,
}
use sio2jail.Stream.{skip_spaces, starts_with_digit}
use sio2jail.System.{
  M, ◌>>=◌, ◌>>◌, pure, opendir, open_file, dup2, close, with_errno_check, with_errno_check_, eintr,
  ebadf,
}

pub record FilesListener : Type 0 where
  pub suppress_stderr : Bool
  pub fds : List ℕ
  pub devnull : ℕ

unfoldable pub make : Bool → FilesListener
make suppress_stderr = record { suppress_stderr = suppress_stderr; fds = []; devnull = 0 }

-- `std::stoi`, whose exceptions are `none`; a negative int is given by its 32 bits.
unfoldable pub stoi_digits : Bool → Text → Option ℕ
unfolding starts_with_digit
stoi_digits minus t =
    let value : ℕ = (read_digits 0 t).0 in
    if starts_with_digit t && leb value (if minus then 2 ^ 31 else 2 ^ 31 - 1)
    then some (if minus && not (value == 0) then 2 ^ 32 - value else value)
    else none

unfoldable pub stoi_signed : Text → Option ℕ
unfolding stoi_digits
stoi_signed [] = none
stoi_signed (c ∷ cs) =
    if c == b'-'
    then stoi_digits true cs
    else if c == b'+'
    then stoi_digits false cs
    else stoi_digits false (c ∷ cs)

unfoldable pub stoi : Text → Option ℕ
unfolding stoi_signed skip_spaces
stoi t = stoi_signed (skip_spaces t)

-- The standard descriptors and the logger's stay open.
unfoldable pub stays_open : (ℕ → Bool) → ℕ → Bool
stays_open is_logger_fd fd = leb fd 2 || is_logger_fd fd

unfoldable pub gather : (ℕ → Bool) → List Text → List ℕ
gather is_logger_fd [] = []
gather is_logger_fd (name ∷ names) =
    let rest = gather is_logger_fd names in
    elim (stoi name) [
      | some fd ↦ if stays_open is_logger_fd fd then rest else fd ∷ rest
      | none ↦ rest
    ]

abbrev pub o_wronly : ℕ
o_wronly = 1

unfoldable pub on_pre_fork : (ℕ → Bool) → List Text → FilesListener → M FilesListener
unfolding with_errno_check_ with_errno_check gather
on_pre_fork is_logger_fd names l = do
  with_errno_check_ [] (opendir (codes "/proc/self/fd/"))
  devnull ← with_errno_check [] (open_file (codes "/dev/null") o_wronly)
  pure (record l { fds = l.fds ++ gather is_logger_fd names; devnull = devnull.value })

-- The loop of the closing: whether all were closed before the fuel was used up. A descriptor is
-- tried again after EINTR.
unfoldable pub close_all : ℕ → List ℕ → M Bool
unfolding with_errno_check
close_all zero fds = pure false
close_all (suc fuel) [] = pure true
close_all (suc fuel) (fd ∷ fds) = do
  r ← with_errno_check (eintr ∷ ebadf ∷ []) (close fd)
  close_all fuel (if r.failed && r.errno == eintr then fd ∷ fds else fds)

unfoldable pub redirect_stderr : Bool → ℕ → M (Unit {0})
unfolding with_errno_check_
redirect_stderr false devnull = pure tt
redirect_stderr true devnull = with_errno_check_ [] (dup2 devnull 2)

unfoldable pub on_post_fork_child : ℕ → FilesListener → M Bool
unfolding with_errno_check_ close_all redirect_stderr
on_post_fork_child fuel l = do
  redirect_stderr l.suppress_stderr l.devnull
  with_errno_check_ [] (close l.devnull)
  close_all fuel l.fds
