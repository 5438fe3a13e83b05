-- ===== src/App.antt =====
-- s2japp/: the command line, the settings and the wiring of the listeners, with the errors that
-- leave them.
pub mod Utils
pub mod Arguments
pub mod BindMounts
pub mod Features
pub mod Settings
pub mod Wiring
pub mod Child
pub mod Supervisor
mod Examples
use sio2jail.Common.{◌≡◌, refl, Text}

-- The exceptions by their class, with the message of the source.
pub data Failure : Type 0 where
  arg_exception invalid_configuration : Text → Failure

pub data Result {ℓ} (A : Type ℓ) : Type ℓ where
  ok : A → Result A
  failed_with : Failure → Result A

infixl 5 ◌>>=◌
abbrev pub ◌>>=◌ : {A B : Type 0} → Result A → (A → Result B) → Result B
ok a >>= f = f a
failed_with e >>= f = failed_with e

-- The parts of a computation that succeeds.
pub >>=-eq-ok :
    {A B : Type 0} (m : Result A) (f : A → Result B) (b : B)
    → (m >>= f) ≡ ok b
    → (a : A) × (m ≡ ok a) × (f a ≡ ok b)
>>=-eq-ok (ok a) f b h = (a, refl, h)
>>=-eq-ok (failed_with e) f b h = cc
