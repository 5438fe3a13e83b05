-- ===== src/Limits/Threads/Count.antt =====
-- The set of threads that the listener counts, against the history of the threads.
use sio2jail.Common.{
  ℕ, ◌⊎◌, ◌≤◌, ◌≡◌, refl, Bool, true, false, ◌&&◌, ◌||◌, ◌==◌, if◌then◌else◌, List, [], ◌∷◌, All,
  length, pos, arith,
}
use sio2jail.Executor.Event.{ExecuteEvent}
use sio2jail.Tracer.Action.{TraceAction}
use sio2jail.System.{Kernel, World, done, contains}
use sio2jail.Limits.Threads.{ThreadsLimit, make, insert, erase, on_post_clone, on_execute_event}

-- What happens to the threads: a new one, with the actions that were asked for, or a stop or an end.
pub data ThreadEvent : Type 0 where
  cloned : (child : ℕ) (parent_action child_action : TraceAction) → ThreadEvent
  waited : ExecuteEvent → ThreadEvent

-- The history, the latest event first, leads a listener with the given limit to a state.
pub data Trace (limit : ℕ) : List ThreadEvent → ThreadsLimit → Type 0 where
  start : Trace limit [] (make (pos limit))
  clone :
      {es : List ThreadEvent} {l l' : ThreadsLimit} (child : ℕ) (a b : TraceAction) (k : Kernel)
      (w w' : World)
      → Trace limit es l
      → on_post_clone child l k w ≡ done (((a, b), l'), w')
      → Trace limit (cloned child a b ∷ es) l'
  wait :
      {es : List ThreadEvent} {l l' : ThreadsLimit} (e : ExecuteEvent)
      → Trace limit es l
      → l' ≡ (on_execute_event e l).1
      → Trace limit (waited e ∷ es) l'

-- The thread was started and has not ended since.
pub alive : ℕ → List ThreadEvent → Bool
alive p [] = false
alive p (cloned c a b ∷ es) = if c == p then true else alive p es
alive p (waited e ∷ es) = if (e.exited || e.killed) && e.pid == p then false else alive p es

abbrev pub Distinct : List ℕ → Type 0
Distinct [] = Unit {0}
Distinct (x ∷ xs) = (contains x xs ≡ false) × Distinct xs

contains-insert :
    (p q : ℕ) (xs : List ℕ) → contains p (insert q xs) ≡ (if q == p then true else contains p xs)
unfolding insert contains
contains-insert p q xs = ground arith

insert-Distinct : (q : ℕ) (xs : List ℕ) → Distinct xs → Distinct (insert q xs)
unfolding insert
insert-Distinct q xs d = ground arith

contains-erase :
    (p q : ℕ) (xs : List ℕ)
    → Distinct xs
    → contains p (erase q xs) ≡ (if q == p then false else contains p xs)
unfolding erase contains
contains-erase p q [] d = ground arith
contains-erase p q (x ∷ xs) d = ground (arith, contains-erase p q xs d.1)

erase-Distinct : (q : ℕ) (xs : List ℕ) → Distinct xs → Distinct (erase q xs)
unfolding erase
erase-Distinct q [] d = tt
erase-Distinct q (x ∷ xs) d = ground (arith, erase-Distinct q xs d.1, contains-erase x q xs d.1)

Trace-Distinct :
    (limit : ℕ) (es : List ThreadEvent) (l : ThreadsLimit)
    → Trace limit es l
    → (l.threads_limit ≡ pos limit) × Distinct l.threads_pids
unfolding make on_post_clone on_execute_event
Trace-Distinct limit es l start = (refl, tt)
Trace-Distinct limit es l' (clone {es = es₀} {l = l} child a b k w w' t e) =
    ground (arith, Trace-Distinct limit es₀ l t, insert-Distinct child l.threads_pids)
Trace-Distinct limit es l' (wait {es = es₀} {l = l} e t h) =
    ground (arith, Trace-Distinct limit es₀ l t, erase-Distinct e.pid l.threads_pids)

Trace-alive :
    (p limit : ℕ) (es : List ThreadEvent) (l : ThreadsLimit)
    → Trace limit es l
    → contains p l.threads_pids ≡ alive p es
unfolding make on_post_clone on_execute_event alive contains
Trace-alive p limit es l start = refl
Trace-alive p limit es l' (clone {es = es₀} {l = l} child a b k w w' t e) = ground (
  arith,
  Trace-Distinct limit es₀ l t,
  Trace-alive p limit es₀ l t,
  contains-insert p child l.threads_pids,
)
Trace-alive p limit es l' (wait {es = es₀} {l = l} e t h) = ground (
  arith,
  Trace-Distinct limit es₀ l t,
  Trace-alive p limit es₀ l t,
  contains-erase p e.pid l.threads_pids,
)

-- After any history, the listener counts exactly the threads that were started and have not ended
-- since, each once.
pub Trace_counts :
    (limit : ℕ) (es : List ThreadEvent) (l : ThreadsLimit)
    → Trace limit es l
    → Distinct l.threads_pids × ((p : ℕ) → contains p l.threads_pids ≡ alive p es)
Trace_counts limit es l t = ((Trace-Distinct limit es l t).1, λ p. Trace-alive p limit es l t)

-- A new thread was let go on.
abbrev pub LetGo : ThreadEvent → Type 0
LetGo (cloned child a b) = (a ≡ TraceAction.continue) ⊎ (b ≡ TraceAction.continue)
LetGo (waited e) = Unit {0}

pub length-erase-le : (q : ℕ) (xs : List ℕ) → length (erase q xs) ≤ length xs
unfolding erase
length-erase-le q [] = omega arith
length-erase-le q (x ∷ xs) = ground (arith, length-erase-le q xs)

-- As long as each new thread was let go on, the threads that are counted are within the limit.
pub Trace_bounded :
    (limit : ℕ) (es : List ThreadEvent) (l : ThreadsLimit)
    → Trace limit es l
    → All LetGo es
    → length l.threads_pids ≤ limit
unfolding make on_post_clone on_execute_event
Trace_bounded limit es l start g = omega arith
Trace_bounded limit es l' (clone {es = es₀} {l = l} child a b k w w' t e) g =
    ground (arith, Trace-Distinct limit es₀ l t)
Trace_bounded limit es l' (wait {es = es₀} {l = l} e t h) g = ground (
  arith,
  Trace-Distinct limit es₀ l t,
  Trace_bounded limit es₀ l t g.1,
  length-erase-le e.pid l.threads_pids,
)
