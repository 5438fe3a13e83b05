-- ===== src/App/Utils.antt =====
-- common/Utils.cc: the splitting of a text at a delimiter.
pub mod Split
pub mod Version
use sio2jail.Common.{ℕ, zero, suc, if◌then◌else◌, Text, List, [], ◌∷◌, Option, none, some, length}
use sio2jail.ProcFs.{starts_with, drop}

-- `str.find(delimiter, pos)`, as the text before the first delimiter and the text behind it.
unfoldable pub find : Text → Text → Option (Text × Text)
unfolding starts_with drop
find delimiter [] = if starts_with delimiter [] then some ([], []) else none
find delimiter (c ∷ cs) =
    let later = find delimiter cs in
    if starts_with delimiter (c ∷ cs)
    then some ([], drop (length delimiter) (c ∷ cs))
    else elim later [ some (token, rest) ↦ some (c ∷ token, rest) | none ↦ none ]

-- What is left behind the last delimiter is a token only where it is not empty.
abbrev pub last_token : Text → List Text
last_token [] = []
last_token (c ∷ cs) = (c ∷ cs) ∷ []

-- The loop on the text from `pos` on; `none` when the fuel is used up.
unfoldable pub split_loop : ℕ → Text → Text → Option (List Text)
unfolding find
split_loop zero delimiter str = none
split_loop (suc fuel) delimiter str = elim (find delimiter str) [
  | some (token, rest) ↦ elim (split_loop fuel delimiter rest) [
    | some tokens ↦ some (token ∷ tokens)
    | none ↦ none
  ]
  | none ↦ some (last_token str)
]

unfoldable pub split : Text → Text → Option (List Text)
unfolding split_loop
split str delimiter = split_loop (suc (length str)) delimiter str
