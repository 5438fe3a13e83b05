-- ===== src/Privileges/Dropped.antt =====
-- What has happened when the privileges are dropped.
use Prim.Native.Nat.{bit_and, bit_or}
use sio2jail.Common.{
  ℕ, zero, suc, ◌+◌, ◌≡◌, refl, sym, ap, ◌∙◌, Bool, true, false, ◌==◌, if◌then◌else◌, List, [], ◌∷◌,
  ◌++◌, Bool-cases, inl, inr,
}
use sio2jail.System.{
  Kernel, World, M, ◌>>=◌, ◌>>◌, pure, done, Syscall, set_securebits, clear_ambient, no_new_privs,
  capset_empty, capbset_drop, with_errno_check_, eperm, einval,
}
use sio2jail.System.Sequence.{
  checked, history_after, Succeeds, >>_pure, >>=_pure, checked-[], checked-∷, checked-++,
  checked-pure-done,
}
use sio2jail.Privileges.{
  drop_from, drop_b_set, add_secure_bits, forbid_ambient, no_new_privileges, clear_ambient_caps,
  drop_caps, on_post_fork_child,
}

abbrev pub drop_calls : ℕ → ℕ → List (List ℕ × Syscall)
drop_calls zero capability = []
drop_calls (suc count) capability =
    (einval ∷ [], capbset_drop capability) ∷ drop_calls count (suc capability)

abbrev pub secured : ℕ → ℕ → ℕ
secured bits s = if bit_and s bits == bits then s else bit_or s bits

-- No call where the bits are set already.
abbrev pub secure_calls : ℕ → ℕ → List (List ℕ × Syscall)
secure_calls bits s =
    if bit_and s bits == bits then [] else (eperm ∷ [], set_securebits (bit_or s bits)) ∷ []

-- The secure bits against ambient capabilities, which a kernel of 4.3 or later knows.
abbrev pub ambient_bits : Bool → ℕ → ℕ
ambient_bits false s = s
ambient_bits true s = secured (64 + 128) s

abbrev pub ambient_calls : Bool → ℕ → List (List ℕ × Syscall)
ambient_calls false s = []
ambient_calls true s = secure_calls (64 + 128) s

abbrev pub clear_calls : Bool → List (List ℕ × Syscall)
clear_calls false = []
clear_calls true = ([], clear_ambient) ∷ []

abbrev pub final_bits : Bool → ℕ → ℕ
final_bits since_4_3 s = ambient_bits since_4_3 (secured (1 + 2) s)

abbrev pub no_new_calls : Bool → ℕ → List (List ℕ × Syscall)
no_new_calls since_4_3 s =
    secure_calls (1 + 2) s
    ++ (ambient_calls since_4_3 (secured (1 + 2) s) ++ ([], no_new_privs) ∷ [])

abbrev pub drop_caps_calls : Bool → ℕ → List (List ℕ × Syscall)
drop_caps_calls since_4_3 s =
    secure_calls (1 + 2) s ++ (clear_calls since_4_3 ++ ([], capset_empty) ∷ [])

abbrev pub calls : ℕ → Bool → ℕ → List (List ℕ × Syscall)
calls last since_4_3 s =
    drop_calls (suc last) 0
    ++ (no_new_calls since_4_3 s ++ drop_caps_calls since_4_3 (final_bits since_4_3 s))

drop_from_lem : (n i : ℕ) → drop_from n i ≡ checked (drop_calls n i)
unfolding drop_from checked
drop_from_lem zero i = refl
drop_from_lem (suc n) i =
    ap (λ m. with_errno_check_ (einval ∷ []) (capbset_drop i) >> m) (drop_from_lem n (suc i))

add_secure_bits_lem :
    (bits s : ℕ) → add_secure_bits bits s ≡ (checked (secure_calls bits s) >> pure (secured bits s))
unfolding add_secure_bits
add_secure_bits_lem bits s = elim (Bool-cases (bit_and s bits == bits)) [
  | inl e ↦ rw e (simp checked-[])
  | inr e ↦ rw e (simp (checked-∷, checked-[]))
]

forbid_ambient_lem :
    (b : Bool) (s : ℕ)
    → forbid_ambient b s ≡ (checked (ambient_calls b s) >> pure (ambient_bits b s))
unfolding forbid_ambient
forbid_ambient_lem false s = simp checked-[]
forbid_ambient_lem true s = add_secure_bits_lem (64 + 128) s

clear_ambient_caps_lem : (b : Bool) → clear_ambient_caps b ≡ checked (clear_calls b)
unfolding clear_ambient_caps checked
clear_ambient_caps_lem false = refl
clear_ambient_caps_lem true = sym (>>_pure _)

after_ambient : ℕ → M ℕ
after_ambient a = with_errno_check_ [] no_new_privs >> pure a

after_noroot : Bool → ℕ → M ℕ
after_noroot b n = forbid_ambient b n >>= after_ambient

no_new_privileges_lem :
    (b : Bool) (s : ℕ)
    → no_new_privileges b s ≡ (checked (no_new_calls b s) >> pure (final_bits b s))
unfolding no_new_privileges after_noroot after_ambient
no_new_privileges_lem b s =
    let n : ℕ = secured (1 + 2) s in
    ap (λ m. m >>= after_noroot b) (add_secure_bits_lem (1 + 2) s)
    ∙ >>=_pure (checked (secure_calls (1 + 2) s)) n (after_noroot b)
    ∙ ap (λ m. checked (secure_calls (1 + 2) s) >> m)
        (ap (λ m. m >>= after_ambient) (forbid_ambient_lem b n)
          ∙ >>=_pure (checked (ambient_calls b n)) (ambient_bits b n) after_ambient)
    ∙ simp (checked-++, checked-∷, checked-[])

after_clear : Bool → ℕ → M ℕ
after_clear b n = clear_ambient_caps b >> (with_errno_check_ [] capset_empty >> pure n)

drop_caps_lem :
    (b : Bool) (s : ℕ) → drop_caps b s ≡ (checked (drop_caps_calls b s) >> pure (secured (1 + 2) s))
unfolding drop_caps after_clear
drop_caps_lem b s =
    ap (λ m. m >>= after_clear b) (add_secure_bits_lem (1 + 2) s)
    ∙ >>=_pure (checked (secure_calls (1 + 2) s)) (secured (1 + 2) s) (after_clear b)
    ∙ simp (clear_ambient_caps_lem, checked-++, checked-∷, checked-[])

on_post_fork_child_lem :
    (last : ℕ) (b : Bool) (s : ℕ)
    → on_post_fork_child last b s
      ≡ (checked (calls last b s) >> pure (secured (1 + 2) (final_bits b s)))
unfolding on_post_fork_child drop_b_set
on_post_fork_child_lem last b s = rw (drop_from_lem (suc last) 0) (
    ap (λ m. checked (drop_calls (suc last) 0) >> (m >>= drop_caps b)) (no_new_privileges_lem b s)
    ∙ ap (λ m. checked (drop_calls (suc last) 0) >> m)
        (>>=_pure (checked (no_new_calls b s)) (final_bits b s) (drop_caps b)
          ∙ ap (λ m. checked (no_new_calls b s) >> m) (drop_caps_lem b (final_bits b s)))
    ∙ sym (
        checked-++ (pure (secured (1 + 2) (final_bits b s))) (drop_calls (suc last) 0) _
        ∙ ap (λ m. checked (drop_calls (suc last) 0) >> m)
            (checked-++ _ (no_new_calls b s) (drop_caps_calls b (final_bits b s)))))

-- If the dropping of privileges returns, then it made exactly these calls, in this order: each
-- capability up to the last was dropped from the bounding set, or is unknown to the kernel; the bits
-- against a privileged root, and against ambient capabilities where the kernel knows them, were set
-- unless they were noted as set, or refused with EPERM; new privileges were forbidden, the ambient
-- set cleared where the kernel has one, and the capabilities emptied.
pub on_post_fork_child_drops :
    (last : ℕ) (since_4_3 : Bool) (s s' : ℕ) (k : Kernel) (w w' : World)
    → on_post_fork_child last since_4_3 s k w ≡ done (s', w')
    → Succeeds k (calls last since_4_3 s) w.history
      × (w' ≡ record w { history = history_after (calls last since_4_3 s) w.history })
      × (secured (1 + 2) (final_bits since_4_3 s) ≡ s')
on_post_fork_child_drops last since_4_3 s s' k w w' h =
    checked-pure-done (calls last since_4_3 s) (secured (1 + 2) (final_bits since_4_3 s)) s' k w w'
      (ap (λ f. f k w) (sym (on_post_fork_child_lem last since_4_3 s)) ∙ h)
