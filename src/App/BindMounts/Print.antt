-- ===== src/App/BindMounts/Print.antt =====
-- A bind mount that is written out is read back.
use sio2jail.Common.{arith, ◌≡◌, refl, Bool, true, false, Text, codes, List, [], ◌∷◌, ◌++◌, some}
use sio2jail.Namespaces.Mount.{Mode, mode_ro, mode_rw, BindMount}
use sio2jail.App.{ok, ◌>>=◌}
use sio2jail.App.Utils.{last_token, split}
use sio2jail.App.Utils.Split.{FreeOf, split-join}
use sio2jail.App.BindMounts.{
  plain, mode_of, dev_of, with_flags, tokens_of, of_tokens, add_bind_mount,
}

-- The flags of the mount, "ro" or "rw" and ",dev" for one with devices.
abbrev pub flags_text : Mode → Bool → Text
flags_text mode_ro false = codes "ro"
flags_text mode_ro true = codes "ro,dev"
flags_text mode_rw false = codes "rw"
flags_text mode_rw true = codes "rw,dev"

abbrev pub print : BindMount → Text
print b = b.source_path ++ (codes ":" ++ (b.target_path ++ (codes ":" ++ flags_text b.mode b.dev)))

with_flags-print :
    (source target : Text) (mode : Mode) (dev : Bool)
    → with_flags source target (flags_text mode dev) (tokens_of (flags_text mode dev) (codes ","))
      ≡ ok (plain source target mode dev)
unfolding with_flags tokens_of mode_of dev_of split
with_flags-print source target mode_ro false = refl
with_flags-print source target mode_ro true = refl
with_flags-print source target mode_rw false = refl
with_flags-print source target mode_rw true = refl

flags_text-FreeOf : (mode : Mode) (dev : Bool) → FreeOf b':' (flags_text mode dev)
flags_text-FreeOf mode_ro false = ground arith
flags_text-FreeOf mode_ro true = ground arith
flags_text-FreeOf mode_rw false = ground arith
flags_text-FreeOf mode_rw true = ground arith

flags_text_kept :
    (mode : Mode) (dev : Bool) → last_token (flags_text mode dev) ≡ flags_text mode dev ∷ []
flags_text_kept mode_ro false = refl
flags_text_kept mode_ro true = refl
flags_text_kept mode_rw false = refl
flags_text_kept mode_rw true = refl

tokens_of-print :
    (b : BindMount)
    → FreeOf b':' b.source_path
    → FreeOf b':' b.target_path
    → tokens_of (print b) (codes ":") ≡ b.source_path ∷ b.target_path ∷ flags_text b.mode b.dev ∷ []
unfolding tokens_of
tokens_of-print b hs ht =
    let found : split (print b) (codes ":")
        ≡ some (b.source_path ∷ b.target_path ∷ last_token (flags_text b.mode b.dev)) =
      split-join b':' (b.source_path ∷ b.target_path ∷ []) (flags_text b.mode b.dev) (hs, (ht, tt))
        (flags_text-FreeOf b.mode b.dev) in
    rw (tokens_of, found, flags_text_kept b.mode b.dev)

-- A bind mount whose paths hold no colon, written out with its mode and flags, is added behind the
-- others as it is.
pub add_bind_mount-print :
    (b : BindMount) (others : List BindMount)
    → FreeOf b':' b.source_path
    → FreeOf b':' b.target_path
    → add_bind_mount (print b) others ≡ ok (others ++ b ∷ [])
unfolding add_bind_mount
add_bind_mount-print b others hs ht = rw (
  tokens_of-print b hs ht,
  of_tokens,
  with_flags-print b.source_path b.target_path b.mode b.dev,
  ◌>>=◌,
)
