-- ===== src/Limits/Threads/Judged.antt =====
-- The threads listener keeps the counted threads within the limit, or gives a kill reason.
use sio2jail.Common.{ℕ, ◌≡◌, inl, inr, ◌≤◌, sym, subst, List, [], length, ℤ, pos, negsuc, arith}
use sio2jail.Executor.Event.{ExecuteEvent}
use sio2jail.Printer.{set_kill_reason}
use sio2jail.System.{done}
use sio2jail.System.Kept.{Keeps, keeping, Judges}
use sio2jail.System.Kept.Reports.{reporting}
use sio2jail.Limits.Threads.{
  ThreadsLimit, clone_under, on_post_clone, event_under, on_execute_event,
}
use sio2jail.Limits.Threads.Count.{length-erase-le}

-- Where the limit is negative, no thread is counted.
abbrev pub Bounded : ℤ → List ℕ → Type 0
Bounded (pos n) pids = length pids ≤ n
Bounded (negsuc n) pids = pids ≡ []

abbrev pub Within : ℤ → ThreadsLimit → Type 0
Within limit l = (l.threads_limit ≡ limit) × Bounded limit l.threads_pids

-- The same, beside what the listener does not touch.
abbrev pub Beside : Type 0 → ℤ → ThreadsLimit → Type 0
Beside R limit l = R × Within limit l

clone_under-Judges :
    (R : Type 0) (limit : ℤ) (child : ℕ) (l : ThreadsLimit)
    → Judges (Beside R limit) l (clone_under limit child l) (λ r. r.1)
unfolding clone_under set_kill_reason
clone_under-Judges R (pos n) child l = record { judges = λ k w w' a j e. ground arith }
clone_under-Judges R (negsuc n) child l = record { judges = λ k w w' a j e. ground arith }

clone_under-Keeps : (limit : ℤ) (child : ℕ) (l : ThreadsLimit) → Keeps (clone_under limit child l)
unfolding clone_under
clone_under-Keeps (pos n) child l = search (keeping, reporting) depth 10
clone_under-Keeps (negsuc n) child l = search (keeping, reporting)

pub on_post_clone-Judges :
    (R : Type 0) (limit : ℤ) (child : ℕ) (l : ThreadsLimit)
    → Judges (Beside R limit) l (on_post_clone child l) (λ r. r.1)
unfolding on_post_clone
on_post_clone-Judges R limit child l = record {
  judges = λ k w w' a j e. elim j [
    | inl given ↦ inl ((clone_under-Keeps l.threads_limit child l).keeps k w w' a given e)
    | inr h ↦
        (clone_under-Judges R limit child l).judges k w w' a (inr h)
          (subst (λ x. clone_under x child l k w ≡ done (a, w')) h.1.0 e)
  ];
}

event_under-Within :
    (limit : ℤ) (event : ExecuteEvent) (l : ThreadsLimit)
    → Within limit l
    → Within limit (event_under limit event l)
unfolding event_under
event_under-Within (pos n) event l h = ground (arith, h, length-erase-le event.pid l.threads_pids)
event_under-Within (negsuc n) event l h = h

pub on_execute_event-Within :
    (limit : ℤ) (event : ExecuteEvent) (l : ThreadsLimit)
    → Within limit l
    → Within limit (on_execute_event event l).1
unfolding on_execute_event
on_execute_event-Within limit event l h =
    subst (λ x. Within limit (event_under x event l)) (sym h.0) (event_under-Within limit event l h)
