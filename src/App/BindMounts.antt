-- ===== src/App/BindMounts.antt =====
-- s2japp/ApplicationSettings.cc, addBindMount: the specification of a bind mount.
pub mod Print
use sio2jail.Common.{
  ℕ, Bool, true, false, if◌then◌else◌, Text, codes, text_eq, List, [], ◌∷◌, ◌++◌, Option, none,
  some,
}
use sio2jail.Namespaces.Mount.{Mode, mode_ro, mode_rw, BindMount}
use sio2jail.App.{Failure, invalid_configuration, Result, ok, failed_with, ◌>>=◌}
use sio2jail.App.Utils.{split}

-- The tokens; with a delimiter that is not empty the fuel of `split` is enough.
unfoldable pub tokens_of : Text → Text → List Text
unfolding split
tokens_of str delimiter = elim (split str delimiter) [ some tokens ↦ tokens | none ↦ [] ]

abbrev pub plain : Text → Text → Mode → Bool → BindMount
plain source target mode dev = record {
  source_path = source;
  target_path = target;
  mode = mode;
  dev = dev;
}

unfoldable pub mode_of : Text → Result Mode
unfolding text_eq
mode_of flag =
    if text_eq flag (codes "ro")
    then ok mode_ro
    else if text_eq flag (codes "rw")
    then ok mode_rw
    else failed_with (invalid_configuration (codes "No such bind mount mode: " ++ flag))

-- Only the first flag behind the mode is looked at.
unfoldable pub dev_of : List Text → Result Bool
unfolding text_eq
dev_of [] = ok false
dev_of (flag ∷ more) =
    if text_eq flag (codes "dev")
    then ok true
    else failed_with (invalid_configuration (codes "No such bind mount flag: " ++ flag))

unfoldable pub with_flags : Text → Text → Text → List Text → Result BindMount
unfolding mode_of dev_of
with_flags source target token [] =
    failed_with (invalid_configuration (codes "Empty bind mount mode: " ++ token))
with_flags source target token (flag ∷ more) = do
  mode ← mode_of flag
  dev ← dev_of more
  ok (plain source target mode dev)

unfoldable pub of_tokens : Text → List Text → Result BindMount
unfolding with_flags tokens_of
of_tokens line (source ∷ target ∷ []) = ok (plain source target mode_ro false)
of_tokens line (source ∷ target ∷ token ∷ []) =
    with_flags source target token (tokens_of token (codes ","))
of_tokens line _ =
    failed_with (invalid_configuration (codes "Invalid bind mount specification: " ++ line))

-- The bind mounts with the new one behind them.
unfoldable pub add_bind_mount : Text → List BindMount → Result (List BindMount)
unfolding of_tokens tokens_of
add_bind_mount line bind_mounts = do
  bind_mount ← of_tokens line (tokens_of line (codes ":"))
  ok (bind_mounts ++ bind_mount ∷ [])
