-- ===== src/Files/Descriptor/Whole.antt =====
-- A text reaches its descriptor as a whole.
use sio2jail.Common.{
  ℕ, zero, suc, ◌≤◌, ◌<◌, ◌≡◌, refl, sym, ap, ◌∙◌, Bool, true, false, not, ◌&&◌, ◌==◌,
  if◌then◌else◌, Text, List, [], ◌∷◌, ◌++◌, append_assoc, append-nil, length, arith,
}
use sio2jail.ProcFs.{drop}
use sio2jail.System.{Kernel, World, ◌>>=◌, Syscall, done, write, eagain, eintr}
use sio2jail.System.Checks.{with_errno_check_lem}
use sio2jail.Files.Descriptor.{progress, write_loop}

abbrev pub take : ℕ → Text → Text
take zero t = []
take (suc n) [] = []
take (suc n) (c ∷ t) = c ∷ take n t

-- What a call added to the descriptor's file, when it was made after the others.
abbrev pub written_by : ℕ → Kernel → List Syscall → Syscall → Text
written_by fd k h (write fd' t) =
    if fd' == fd then take (progress (k.reply h (write fd' t))) t else []
written_by fd k h c = []

-- What the descriptor's file got by all calls, the latest first.
abbrev pub delivered : ℕ → Kernel → List Syscall → Text
delivered fd k [] = []
delivered fd k (c ∷ h) = delivered fd k h ++ written_by fd k h c

take-drop : (n : ℕ) (t : Text) → (take n t ++ drop n t) ≡ t
unfolding drop
take-drop zero t = refl
take-drop (suc n) [] = refl
take-drop (suc n) (c ∷ t) = ap (λ s. c ∷ s) (take-drop n t)

length-drop : (n c : ℕ) (t : Text) → length (drop (suc n) (c ∷ t)) ≤ length t
unfolding drop
length-drop zero c t = omega arith
length-drop (suc n) c [] = omega arith
length-drop (suc n) c (d ∷ t) = omega (arith, length-drop n d t)

shorter : (n c : ℕ) (cs : Text) → 1 ≤ n → length (drop n (c ∷ cs)) ≤ length cs
shorter zero c cs h = absurd (omega arith)
shorter (suc n) c cs h = length-drop n c cs

-- The kernel takes at least one byte of each write where partial writes are allowed, and else the
-- whole text.
abbrev pub Takes : Bool → ℕ → Kernel → Type 0
Takes true fd k =
    (h : List Syscall) (t : Text) (c : ℕ)
    → ((k.reply h (write fd (c ∷ t))).failed ≡ false) × (1 ≤ (k.reply h (write fd (c ∷ t))).value)
Takes false fd k =
    (h : List Syscall) (t : Text) (c : ℕ)
    → ((k.reply h (write fd (c ∷ t))).failed ≡ false)
      × ((k.reply h (write fd (c ∷ t))).value ≡ length (c ∷ t))

-- A write succeeds, takes at least one byte, and is no forbidden partial write.
abbrev GoesOn : Bool → ℕ → Kernel → List Syscall → ℕ → Text → Type 0
GoesOn allow_partial fd k h c t =
    ((k.reply h (write fd (c ∷ t))).failed ≡ false)
    × (1 ≤ (k.reply h (write fd (c ∷ t))).value)
    × ((not allow_partial && not ((k.reply h (write fd (c ∷ t))).value == length (c ∷ t))) ≡ false)

Takes-GoesOn :
    (allow_partial : Bool) (fd : ℕ) (k : Kernel) (h : List Syscall) (c : ℕ) (t : Text)
    → Takes allow_partial fd k
    → GoesOn allow_partial fd k h c t
Takes-GoesOn true fd k h c t takes = ((takes h t c).0, (takes h t c).1, refl)
Takes-GoesOn false fd k h c t takes =
    let (ok, whole) = takes h t c in (ok, ground arith, ground arith)

-- The text was written, and is what the descriptor's file got.
abbrev pub Delivers : ℕ → ℕ → Bool → Text → Kernel → World → Type 0
Delivers fuel fd allow_partial t k w =
    ((w' : World) × (write_loop fuel fd allow_partial t k w ≡ done (true, w'))
      × (delivered fd k w'.history ≡ delivered fd k w.history ++ t))

write_loop_step :
    (fuel fd c : ℕ) (allow_partial : Bool) (cs : Text) (k : Kernel) (w : World)
    → GoesOn allow_partial fd k w.history c cs
    → write_loop (suc fuel) fd allow_partial (c ∷ cs) k w
      ≡ write_loop fuel fd allow_partial
          (drop (k.reply w.history (write fd (c ∷ cs))).value (c ∷ cs))
          k
          (record w { history = write fd (c ∷ cs) ∷ w.history })
unfolding write_loop
write_loop_step fuel fd c allow_partial cs k w (ok, some_byte, goes_on) = rw (
  with_errno_check_lem (eagain ∷ eintr ∷ []) (write fd (c ∷ cs)) k w,
  ok,
  progress,
  ◌>>=◌,
  goes_on,
)

written_by-write :
    (fd : ℕ) (k : Kernel) (h : List Syscall) (t : Text)
    → (k.reply h (write fd t)).failed ≡ false
    → written_by fd k h (write fd t) ≡ take (k.reply h (write fd t)).value t
unfolding progress
written_by-write fd k h t ok =
    let same : (fd == fd) ≡ true = ground arith in rw (same, ok, progress)

-- Where partial writes are allowed, as for the results, and the kernel takes at least one byte of
-- each write, a text is written as a whole and in its order, however it is divided; where they are
-- not, this holds if the kernel takes each text as a whole. More fuel than bytes is enough.
pub write_loop-Delivers :
    (fuel fd : ℕ) (allow_partial : Bool) (t : Text) (k : Kernel) (w : World)
    → length t < fuel
    → Takes allow_partial fd k
    → Delivers fuel fd allow_partial t k w
unfolding write_loop
write_loop-Delivers zero fd p t k w hf ht = absurd (omega arith)
write_loop-Delivers (suc fuel) fd p [] k w hf ht =
    (w, refl, sym (append-nil (delivered fd k w.history)))
write_loop-Delivers (suc fuel) fd p (c ∷ cs) k w hf ht =
    let (ok, some_byte, goes_on) = Takes-GoesOn p fd k w.history c cs ht in
    let call = write fd (c ∷ cs) in
    let n : ℕ = (k.reply w.history call).value in
    let less = shorter n c cs some_byte in
    let v : World = record w { history = call ∷ w.history } in
    let (w', e, all) =
      write_loop-Delivers fuel fd p (drop n (c ∷ cs)) k v (omega (arith, less)) ht in
    (
      w',
      write_loop_step fuel fd c p cs k w (ok, some_byte, goes_on) ∙ e,
      all
          ∙ append_assoc (delivered fd k w.history) (written_by fd k w.history call)
              (drop n (c ∷ cs))
          ∙ ap (λ s. delivered fd k w.history ++ (s ++ drop n (c ∷ cs)))
              (written_by-write fd k w.history (c ∷ cs) ok)
          ∙ ap (λ s. delivered fd k w.history ++ s) (take-drop n (c ∷ cs)),
    )
