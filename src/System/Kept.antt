-- ===== src/System/Kept.antt =====
-- What a computation does to a property of the result builder: it stays, if the computation returns.
pub mod Reports
use sio2jail.Common.{
  ℕ, ◌≡◌, ◌≢◌, ◌⊎◌, inl, inr, refl, Bool, true, false, if◌then◌else◌, List, some, arith, subst,
}
use sio2jail.Printer.{OiModel, KillReason}
use sio2jail.System.{
  Kernel, World, M, Outcome, done, threw, ◌>>=◌, ◌>>◌, pure, throw, Exn, Reply, Syscall, invoke,
  query, report, assert_that, check_errno, with_errno_check, with_errno_check_,
}
use sio2jail.System.Checks.{>>=-eq-done, with_errno_check-done, with_errno_check_-cases}

-- A kill reason that the builder has is never taken back.
pub record Keeps {A : Type 0} (m : M A) : Type 0 where
  pub keeps :
      (k : Kernel) (w w' : World) (a : A)
      → w.output.kill_reason ≢ KillReason.none
      → m k w ≡ done (a, w')
      → w'.output.kill_reason ≢ KillReason.none

pub bind-Keeps :
    {A B : Type 0} (m : M A) (f : A → M B) → Keeps m → ((a : A) → Keeps (f a)) → Keeps (m >>= f)
bind-Keeps m f p q = record {
  keeps = λ k w w' b h e.
      (let (a, v, e₁, e₂) = >>=-eq-done m f e in (q a).keeps k v w' b (p.keeps k w v a h e₁) e₂);
}

pub pure-Keeps : {A : Type 0} (a : A) → Keeps (pure a)
pure-Keeps a = record { keeps = λ k w w' b h e. ground (arith, e) }

pub throw-Keeps : {A : Type 0} (e : Exn) → Keeps {A = A} (throw e)
throw-Keeps x = record { keeps = λ k w w' b h e. ground (arith, e) }

pub invoke-Keeps : (c : Syscall) → Keeps (invoke c)
invoke-Keeps c = record { keeps = λ k w w' b h e. ground (arith, e) }

pub query-Keeps : {A : Type 0} (c : Syscall) (f : Kernel → List Syscall → A) → Keeps (query c f)
query-Keeps c f = record { keeps = λ k w w' b h e. ground (arith, e) }

pub if-Keeps : {A : Type 0} (b : Bool) (m n : M A) → Keeps m → Keeps n → Keeps (if b then m else n)
if-Keeps true m n p q = p
if-Keeps false m n p q = q

pub check_errno-Keeps : (ignored : List ℕ) (r : Reply) → Keeps (check_errno ignored r)
unfolding check_errno
check_errno-Keeps ignored r = if-Keeps _ _ _ (throw-Keeps _) (pure-Keeps r)

pub with_errno_check-Keeps : (ignored : List ℕ) (c : Syscall) → Keeps (with_errno_check ignored c)
unfolding with_errno_check
with_errno_check-Keeps ignored c = bind-Keeps _ _ (invoke-Keeps c) (check_errno-Keeps ignored)

pub with_errno_check_-Keeps : (ignored : List ℕ) (c : Syscall) → Keeps (with_errno_check_ ignored c)
unfolding with_errno_check_
with_errno_check_-Keeps ignored c =
    bind-Keeps _ _ (with_errno_check-Keeps ignored c) (λ r. pure-Keeps tt)

pub report-Keeps :
    (f : OiModel → OiModel)
    → ((o : OiModel) → o.kill_reason ≢ KillReason.none → (f o).kill_reason ≢ KillReason.none)
    → Keeps (report f)
report-Keeps f p = record { keeps = λ k w w' b h e. ground (arith, e, p w.output) }

-- A property of a state, unless a kill reason is given.
abbrev pub Judged : {S : Type 0} → (S → Type 0) → S → OiModel → Type 0
Judged P s o = (o.kill_reason ≢ KillReason.none) ⊎ P s

-- A computation from one state to the state in its result keeps the property, or gives a reason.
pub record Judges {S A : Type 0} (P : S → Type 0) (s : S) (m : M A) (state : A → S) : Type 0 where
  pub judges :
      (k : Kernel) (w w' : World) (a : A)
      → Judged P s w.output
      → m k w ≡ done (a, w')
      → Judged P (state a) w'.output

pub Keeps-Judges :
    {S A : Type 0} (P : S → Type 0) (s : S) (m : M A) (state : A → S)
    → ((a : A) → P s → P (state a))
    → Keeps m
    → Judges P s m state
Keeps-Judges P s m state same p = record {
  judges = λ k w w' a j e. elim j [
    | inl given ↦ inl (p.keeps k w w' a given e)
    | inr holds ↦ inr (same a holds)
  ];
}

pub bind-Judges :
    {S A B : Type 0} (P : S → Type 0) (s : S) (m : M A) (f : A → M B) (middle : A → S)
    (state : B → S)
    → Judges P s m middle
    → ((a : A) → Judges P (middle a) (f a) state)
    → Judges P s (m >>= f) state
bind-Judges P s m f middle state p q = record {
  judges = λ k w w' b j e.
      (let (a, v, e₁, e₂) = >>=-eq-done m f e in (q a).judges k v w' b (p.judges k w v a j e₁) e₂);
}

module _ {S : Type 0} (P : S → Type 0) where
  pub pure-Judges : {A : Type 0} (a : A) (state : A → S) → Judges P (state a) (pure a) state
  pure-Judges a state = record { judges = λ k w w' b j e. ground (arith, e) }

  -- A step of the state that keeps the property.
  pub put :
      {A : Type 0} (s : S) (a : A) (state : A → S) → (P s → P (state a)) → Judges P s (pure a) state
  put s a state same = record {
    judges = λ k w w' b j e.
        (pure-Judges a state).judges k w w' b (elim j [ inl g ↦ inl g | inr h ↦ inr (same h) ]) e;
  }

  pub throw-Judges : {A : Type 0} (s : S) (e : Exn) (state : A → S) → Judges P s (throw e) state
  throw-Judges s x state = record { judges = λ k w w' b j e. ground (arith, e) }

  -- The state that is returned where there is one.
  pub returned :
      (s s' : S) (w w' : World) (k : Kernel)
      → Judged P s w.output
      → pure (some s) k w ≡ done (some s', w')
      → Judged P s' w'.output
  returned s s' w w' k j e = ground (arith, e)

  -- A computation that does not touch the state.
  pub aside : {A : Type 0} (s : S) (m : M A) → Keeps m → Judges P s m (λ a. s)
  aside s m p = Keeps-Judges P s m (λ a. s) (λ a h. h) p

  -- A computation whose result is only put somewhere.
  pub stored :
      {A B : Type 0} (s : S) (m : M A) (f : A → B) (state : B → S)
      → Keeps m
      → ((a : A) → P s → P (state (f a)))
      → Judges P s (m >>= λ a. pure (f a)) state
  stored s m f state p same =
      bind-Judges P s m (λ a. pure (f a)) (λ a. state (f a)) state
        (Keeps-Judges P s m (λ a. state (f a)) same p) (λ a. pure-Judges (f a) state)

  -- A computation whose result is not looked at.
  pub passed :
      {A B : Type 0} (s : S) (m : M A) (b : B) (state : B → S)
      → Keeps m
      → (P s → P (state b))
      → Judges P s (m >>= λ a. pure b) state
  passed s m b state p same = stored s m (λ a. b) state p (λ a h. same h)

  pub if-Judges :
      {A : Type 0} (s : S) (b : Bool) (m n : M A) (state : A → S)
      → Judges P s m state
      → Judges P s n state
      → Judges P s (if b then m else n) state
  if-Judges s true m n state p q = p
  if-Judges s false m n state p q = q

-- What only looks at the kernel's answers.
pub ask-Keeps :
    {A : Type 0} (f : Kernel → List Syscall → A) → Keeps (λ k w. pure (f k w.history) k w)
ask-Keeps f = record { keeps = λ k w w' a h e. ground (arith, e) }

pub ruleset keeping = (
  bind-Keeps, pure-Keeps, throw-Keeps, invoke-Keeps, query-Keeps, if-Keeps, with_errno_check-Keeps,
  with_errno_check_-Keeps,
)
