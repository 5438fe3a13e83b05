-- ===== src/System/Sequence.antt =====
-- Sequences of checked calls, each with the errors that are ignored.
use sio2jail.Common.{
  ℕ, ◌≡◌, ◌⊎◌, refl, sym, ap, ◌∙◌, inl, inr, true, false, List, [], ◌∷◌, ◌++◌, arith,
}
use sio2jail.System.{
  Kernel, World, M, ◌>>=◌, ◌>>◌, pure, Outcome, Syscall, done, threw, contains, with_errno_check_,
}
use mathlib.Core.Path.{fun_ext}
use sio2jail.System.Checks.{with_errno_check_-cases, with_errno_check_-tolerates, >>=-eq-done}

unfoldable pub checked : List (List ℕ × Syscall) → M (Unit {0})
unfolding with_errno_check_
checked [] = pure tt
checked ((ignored, c) ∷ cs) = do with_errno_check_ ignored c; checked cs

-- The history of calls after these, the latest first.
abbrev pub history_after : List (List ℕ × Syscall) → List Syscall → List Syscall
history_after [] h = h
history_after (call ∷ calls) h = history_after calls (call.1 ∷ h)

-- Each call succeeds, or fails with an error that is ignored.
abbrev pub Succeeds : Kernel → List (List ℕ × Syscall) → List Syscall → Type 0
Succeeds k [] h = Unit
Succeeds k (call ∷ calls) h =
    ((((k.reply h call.1).failed ≡ false) ⊎ (contains (k.reply h call.1).errno call.0 ≡ true))
      × Succeeds k calls (call.1 ∷ h))

pub >>_assoc : (m n : M (Unit {0})) {B : Type 0} (p : M B) → ((m >> n) >> p) ≡ (m >> (n >> p))
>>_assoc m n {B} p = fun_ext λ k. fun_ext λ w. go k (m k w)
  where
    go :
        (k : Kernel) (o : Outcome (Unit {0} × World))
        → ◌≡◌ {A = Outcome (B × World)}
            (elim (elim o as (λ x. Outcome (Unit {0} × World)) [
              | done (a, v) ↦ n k v
              | threw e ↦ threw e
            ])
              as (λ x. Outcome (B × World)) [ done (a, v) ↦ p k v | threw e ↦ threw e ])
            (elim o [ done (a, v) ↦ (n >> p) k v | threw e ↦ threw e ])
    go k (done (a, v)) = refl
    go k (threw e) = refl

-- What follows may be replaced by what does the same from every world.
pub >>_cong :
    {B : Type 0} (m : M (Unit {0})) (p q : M B) (k : Kernel) (w : World)
    → ((v : World) → p k v ≡ q k v)
    → (m >> p) k w ≡ (m >> q) k w
>>_cong {B} m p q k w same = go (m k w)
  where
    go :
        (o : Outcome (Unit {0} × World))
        → ◌≡◌ {A = Outcome (B × World)}
            (elim o [ done (a, v) ↦ p k v | threw e ↦ threw e ])
            (elim o [ done (a, v) ↦ q k v | threw e ↦ threw e ])
    go (done (a, v)) = same v
    go (threw e) = refl

pub >>_cong_first :
    {B : Type 0} (m n : M (Unit {0})) (p : M B) (k : Kernel) (w : World)
    → m k w ≡ n k w
    → (m >> p) k w ≡ (n >> p) k w
>>_cong_first {B} m n p k w same =
    ap
      (λ (o : Outcome (Unit {0} × World)). elim o as (λ x. Outcome (B × World)) [
        | done (a, v) ↦ p k v
        | threw e ↦ threw e
      ])
      same

pub >>_pure : (m : M (Unit {0})) → (m >> pure tt) ≡ m
>>_pure m = fun_ext λ k. fun_ext λ w. go k (m k w)
  where
    go :
        (k : Kernel) (o : Outcome (Unit {0} × World))
        → ◌≡◌ {A = Outcome (Unit {0} × World)}
            (elim o [ done (a, v) ↦ done (tt, v) | threw e ↦ threw e ])
            o
    go k (done (tt, v)) = refl
    go k (threw e) = refl

-- A result handed on after a computation without one.
pub >>=_pure :
    {A B : Type 0} (m : M (Unit {0})) (a : A) (f : A → M B) → ((m >> pure a) >>= f) ≡ (m >> f a)
>>=_pure {A} {B} m a f = fun_ext λ k. fun_ext λ w. go k (m k w)
  where
    go :
        (k : Kernel) (o : Outcome (Unit {0} × World))
        → ◌≡◌ {A = Outcome (B × World)}
            (elim (elim o as (λ x. Outcome (A × World)) [
              | done (u, v) ↦ done (a, v)
              | threw e ↦ threw e
            ])
              as (λ x. Outcome (B × World)) [ done (b, v) ↦ f b k v | threw e ↦ threw e ])
            (elim o [ done (u, v) ↦ f a k v | threw e ↦ threw e ])
    go k (done (u, v)) = refl
    go k (threw e) = refl

pub checked-append :
    (xs ys : List (List ℕ × Syscall)) → checked (xs ++ ys) ≡ (checked xs >> checked ys)
unfolding checked
checked-append [] ys = refl
checked-append ((ignored, c) ∷ xs) ys =
    ap (λ m. with_errno_check_ ignored c >> m) (checked-append xs ys)
    ∙ sym (>>_assoc (with_errno_check_ ignored c) (checked xs) (checked ys))

-- A sequence of calls before something else, by its parts.
module _ {B : Type 0} (p : M B) where
  pub checked-[] : (checked [] >> p) ≡ p
  unfolding checked
  checked-[] = refl

  pub checked-∷ :
      (ignored : List ℕ) (c : Syscall) (cs : List (List ℕ × Syscall))
      → (checked ((ignored, c) ∷ cs) >> p) ≡ (with_errno_check_ ignored c >> (checked cs >> p))
  unfolding checked
  checked-∷ ignored c cs = >>_assoc (with_errno_check_ ignored c) (checked cs) p

  pub checked-++ :
      (xs ys : List (List ℕ × Syscall))
      → (checked (xs ++ ys) >> p) ≡ (checked xs >> (checked ys >> p))
  checked-++ xs ys = ap (λ m. m >> p) (checked-append xs ys) ∙ >>_assoc (checked xs) (checked ys) p

pub checked-Succeeds :
    (cs : List (List ℕ × Syscall)) (k : Kernel) (w : World)
    → Succeeds k cs w.history
    → checked cs k w ≡ done (tt, record w { history = history_after cs w.history })
unfolding checked
checked-Succeeds [] k w h = refl
checked-Succeeds ((ignored, c) ∷ cs) k w h =
    rw (with_errno_check_-tolerates ignored c k w h.0, ◌>>=◌)
      (checked-Succeeds cs k (record w { history = c ∷ w.history }) h.1)

pub checked-done :
    (cs : List (List ℕ × Syscall)) (k : Kernel) (w w' : World) (u : Unit {0})
    → checked cs k w ≡ done (u, w')
    → Succeeds k cs w.history × (w' ≡ record w { history = history_after cs w.history })
unfolding checked
checked-done [] k w w' u h = (tt, ground arith)
checked-done ((ignored, c) ∷ cs) k w w' u h = elim (with_errno_check_-cases ignored c k w) [
  | inl (t, e) ↦
      let (rest, f) =
        checked-done cs k (record w { history = c ∷ w.history }) w' u (rw (e, ◌>>=◌) at h) in
      ((t, rest), f)
  | inr e ↦ let bad = (rw (e, ◌>>=◌) at h) in cc
]

-- What returns after a sequence of calls has made all of them, in their order, and none failed.
pub checked-pure-done :
    {B : Type 0} (cs : List (List ℕ × Syscall)) (b b' : B) (k : Kernel) (w w' : World)
    → (checked cs >> pure b) k w ≡ done (b', w')
    → Succeeds k cs w.history × (w' ≡ record w { history = history_after cs w.history }) × (b ≡ b')
checked-pure-done {B} cs b b' k w w' h =
    let (u, v, e, r) = >>=-eq-done (checked cs) (λ u. pure b) h in
    let (s, f) = checked-done cs k w v u e in
    let same : ◌≡◌ {A = Outcome (B × World)} (done (b, v)) (done (b', w')) = r in (s, cc, cc)
