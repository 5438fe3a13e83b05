-- ===== src/App/Utils/Version.antt =====
-- common/Utils.cc, checkKernelVersion. The text of /proc/sys/kernel/osrelease, where it can be opened,
-- is an argument. As it is cut at the first minus, no number in it is negative.
use sio2jail.Common.{
  ℕ, true, false, Bool, ltb, leb, ◌==◌, if◌then◌else◌, Text, codes, List, [], ◌∷◌, Option, none,
  some,
}
use sio2jail.Files.Closing.{stoi}
use sio2jail.Perf.Config.{Partial}
use sio2jail.System.{done, threw, stl_exception}
use sio2jail.App.BindMounts.{tokens_of}

-- What `getline` takes up to the delimiter.
unfoldable pub until : ℕ → Text → Text
until delimiter [] = []
until delimiter (c ∷ cs) = let rest = until delimiter cs in if c == delimiter then [] else c ∷ rest

-- None where a part is no number, for which `stoi` throws.
unfoldable pub version_numbers : List Text → Option (List ℕ)
unfolding stoi
version_numbers [] = some []
version_numbers (t ∷ ts) =
    let rest = version_numbers ts in
    elim (stoi t) [ none ↦ none | some n ↦ elim rest [ none ↦ none | some ns ↦ some (n ∷ ns) ] ]

-- None where a number that is not there is read: the behaviour is undefined.
unfoldable pub is_at_least : ℕ → ℕ → List ℕ → Option Bool
is_at_least major minor [] = none
is_at_least major minor (n ∷ []) =
    if ltb n major then some false else if ltb major n then some true else none
is_at_least major minor (n ∷ m ∷ ns) =
    if ltb n major then some false else if ltb major n then some true else some (leb minor m)

unfoldable pub check_kernel_version : ℕ → ℕ → Option Text → Partial Bool
unfolding until version_numbers is_at_least tokens_of
check_kernel_version major minor none = done (some false)
check_kernel_version major minor (some []) = done (some false)
check_kernel_version major minor (some (c ∷ cs)) =
    elim (version_numbers (tokens_of (until b'-' (c ∷ cs)) (codes "."))) [
      | none ↦ threw stl_exception
      | some numbers ↦ done (is_at_least major minor numbers)
    ]
