-- ===== src/System/Checks.antt =====
-- What a checked call does, for each of the kernel's answers.
use sio2jail.Common.{
  ℕ, ◌≡◌, ◌⊎◌, refl, sym, ◌∙◌, inl, inr, Bool-cases, true, false, not, ◌&&◌, List, ◌∷◌,
  if◌then◌else◌, arith,
}
use sio2jail.System.{
  Kernel, World, Reply, M, Outcome, ◌>>=◌, Syscall, done, threw, system_exception, contains,
  with_errno_check, with_errno_check_,
}

module _ (ignored : List ℕ) (c : Syscall) (k : Kernel) (w : World) where
  pub with_errno_check_lem : with_errno_check ignored c k w ≡ (
      if (k.reply w.history c).failed && not (contains (k.reply w.history c).errno ignored)
      then threw (system_exception (k.reply w.history c).errno)
      else done (k.reply w.history c, record w { history = c ∷ w.history }))
  unfolding with_errno_check
  with_errno_check_lem = ground arith

  pub with_errno_check__lem : with_errno_check_ ignored c k w ≡ (
      if (k.reply w.history c).failed && not (contains (k.reply w.history c).errno ignored)
      then threw (system_exception (k.reply w.history c).errno)
      else done (tt, record w { history = c ∷ w.history }))
  unfolding with_errno_check_
  with_errno_check__lem = ground arith

  pub with_errno_check_-succeeds :
      (k.reply w.history c).failed ≡ false
      → with_errno_check_ ignored c k w ≡ done (tt, record w { history = c ∷ w.history })
  with_errno_check_-succeeds h = rw (with_errno_check__lem, h)

  -- The call succeeds, or fails with an errno that is ignored.
  pub with_errno_check_-tolerates :
      ((k.reply w.history c).failed ≡ false) ⊎ (contains (k.reply w.history c).errno ignored ≡ true)
      → with_errno_check_ ignored c k w ≡ done (tt, record w { history = c ∷ w.history })
  with_errno_check_-tolerates h = ground (arith, with_errno_check__lem)

-- A checked call returns where it succeeds or its error is ignored, and throws else.
pub with_errno_check_-cases :
    (ignored : List ℕ) (c : Syscall) (k : Kernel) (w : World)
    → ((((k.reply w.history c).failed ≡ false)
          ⊎ (contains (k.reply w.history c).errno ignored ≡ true))
        × (with_errno_check_ ignored c k w ≡ done (tt, record w { history = c ∷ w.history })))
      ⊎ (with_errno_check_ ignored c k w ≡ threw (system_exception (k.reply w.history c).errno))
with_errno_check_-cases ignored c k w = ground (arith, with_errno_check__lem ignored c k w)

-- A checked call that returns has been made, and succeeded or had an error that is ignored.
pub with_errno_check-done :
    (ignored : List ℕ) (c : Syscall) (k : Kernel) (w w' : World) (r : Reply)
    → with_errno_check ignored c k w ≡ done (r, w')
    → (k.reply w.history c ≡ r)
      × (record w { history = c ∷ w.history } ≡ w')
      × (((k.reply w.history c).failed ≡ false)
          ⊎ (contains (k.reply w.history c).errno ignored ≡ true))
with_errno_check-done ignored c k w w' r h =
    let e : ◌≡◌ {A = Outcome (Reply × World)}
        (if (k.reply w.history c).failed && not (contains (k.reply w.history c).errno ignored)
          then threw (system_exception (k.reply w.history c).errno)
          else done (k.reply w.history c, record w { history = c ∷ w.history }))
        (done (r, w')) =
      sym (with_errno_check_lem ignored c k w) ∙ h in
    elim (Bool-cases (k.reply w.history c).failed) [
      | inl f ↦ elim (Bool-cases (contains (k.reply w.history c).errno ignored)) [
        | inl i ↦ let q = (rw (f, i) at e) in (cc, cc, inr i)
        | inr i ↦ let q = (rw (f, i) at e) in cc
      ]
      | inr f ↦ let q = (rw f at e) in (cc, cc, inl f)
    ]

-- The parts of a computation that returns.
pub >>=-eq-done :
    {A B : Type 0} (m : M A) (f : A → M B) {k : Kernel} {w w' : World} {b : B}
    → (m >>= f) k w ≡ done (b, w')
    → (a : A) × (v : World) × (m k w ≡ done (a, v)) × (f a k v ≡ done (b, w'))
>>=-eq-done {A} {B} m f {k} {w} {w'} {b} h = go (m k w) refl h
  where
    go :
        (o : Outcome (A × World))
        → m k w ≡ o
        → ◌≡◌ {A = Outcome (B × World)}
            (elim o [ done (a, v) ↦ f a k v | threw e ↦ threw e ])
            (done (b, w'))
        → (a : A) × (v : World) × (m k w ≡ done (a, v)) × (f a k v ≡ done (b, w'))
    go (done (a, v)) e r = (a, v, e, r)
    go (threw x) e r = cc
