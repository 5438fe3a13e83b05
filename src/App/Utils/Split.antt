-- ===== src/App/Utils/Split.antt =====
-- Splitting undoes the joining of tokens by a delimiter of one byte.
use sio2jail.Common.{
  ℕ, zero, suc, ◌≤◌, ◌<◌, ◌≡◌, ◌≢◌, refl, Text, List, [], ◌∷◌, ◌++◌, All, none, some, length,
  length-append, arith, Option-cases, inl, inr,
}
use sio2jail.ProcFs.{starts_with, drop}
use sio2jail.App.Utils.{find, last_token, split_loop, split}

-- The byte does not stand in the text.
abbrev pub FreeOf : ℕ → Text → Type 0
FreeOf d = All (λ c. c ≢ d)

-- The tokens, the delimiter after each, before a last text.
abbrev pub join : ℕ → List Text → Text → Text
join d [] last = last
join d (token ∷ tokens) last = token ++ d ∷ join d tokens last

find-free : (d : ℕ) (t : Text) → FreeOf d t → find (d ∷ []) t ≡ none
unfolding find starts_with
find-free d [] h = refl
find-free d (c ∷ t) h = ground (arith, find-free d t h.1)

find-token : (d : ℕ) (t rest : Text) → FreeOf d t → find (d ∷ []) (t ++ d ∷ rest) ≡ some (t, rest)
unfolding find starts_with drop
find-token d [] rest h = ground arith
find-token d (c ∷ t) rest h = ground (arith, find-token d t rest h.1)

length-join :
    (d : ℕ) (tokens : List Text) (last : Text) → length tokens ≤ length (join d tokens last)
length-join d [] last = omega arith
length-join d (t ∷ tokens) last =
    omega (arith, length-append t (d ∷ join d tokens last), length-join d tokens last)

split_loop-join :
    (d fuel : ℕ) (tokens : List Text) (last : Text)
    → suc (length tokens) ≤ fuel
    → All (FreeOf d) tokens
    → FreeOf d last
    → split_loop fuel (d ∷ []) (join d tokens last) ≡ some (tokens ++ last_token last)
unfolding split_loop
split_loop-join d zero tokens last hf ht hl = absurd (omega arith)
split_loop-join d (suc fuel) [] last hf ht hl = rw (find-free d last hl, split_loop)
split_loop-join d (suc fuel) (t ∷ tokens) last hf ht hl = rw (
  find-token d t (join d tokens last) ht.0,
  split_loop,
  split_loop-join d fuel tokens last (omega arith) ht.1 hl,
)

-- The tokens that a text holds between delimiters of one byte are what it is split into, the empty
-- ones too, apart from an empty one at the end; the fuel is enough.
pub split-join :
    (d : ℕ) (tokens : List Text) (last : Text)
    → All (FreeOf d) tokens
    → FreeOf d last
    → split (join d tokens last) (d ∷ []) ≡ some (tokens ++ last_token last)
unfolding split
split-join d tokens last ht hl =
    split_loop-join d (suc (length (join d tokens last))) tokens last
      (omega (arith, length-join d tokens last)) ht hl

length-drop : (d t : Text) → length (drop (length d) t) ≤ length t
unfolding drop
length-drop [] t = omega arith
length-drop (c ∷ d) [] = omega arith
length-drop (c ∷ d) (x ∷ t) = omega (arith, length-drop d t)

-- What is behind a delimiter that is not empty is shorter.
find_shorter :
    (c : ℕ) (d t token rest : Text) → find (c ∷ d) t ≡ some (token, rest) → length rest < length t
unfolding find starts_with drop
find_shorter c d [] token rest h = ground arith
find_shorter c d (x ∷ t) token rest h = elim (Option-cases (find (c ∷ d) t)) [
  | inl e ↦ ground (arith, length-drop d t)
  | inr ((token', rest'), e) ↦ ground (arith, length-drop d t, find_shorter c d t token' rest' e)
]

split_loop_ends :
    (c : ℕ) (d : Text) (fuel : ℕ) (t : Text)
    → length t < fuel
    → (tokens : List Text) × (split_loop fuel (c ∷ d) t ≡ some tokens)
unfolding split_loop
split_loop_ends c d zero t h = absurd (omega arith)
split_loop_ends c d (suc fuel) t h = elim (Option-cases (find (c ∷ d) t)) [
  | inl e ↦ (last_token t, rw (e, split_loop))
  | inr ((token, rest), e) ↦
      let shorter = find_shorter c d t token rest e in
      let (tokens, f) = split_loop_ends c d fuel rest (omega arith) in
      (token ∷ tokens, rw (e, split_loop, f))
]

-- With a delimiter that is not empty the loop ends.
pub split_ends : (c : ℕ) (d t : Text) → (tokens : List Text) × (split t (c ∷ d) ≡ some tokens)
unfolding split
split_ends c d t = split_loop_ends c d (suc (length t)) t (omega arith)
