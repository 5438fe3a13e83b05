-- ===== src/Perf/Counter/Limit.antt =====
-- When the limit of instructions asks for a kill.
use sio2jail.Common.{
  ℕ, ◌+◌, ◌≡◌, ap, ◌∙◌, false, not, ◌&&◌, leb, ◌==◌, if◌then◌else◌, codes, u64, List, [], ◌∷◌, ℤ,
  pos, arith, inl, inr, Bool-cases,
}
use sio2jail.Executor.Event.{ExecuteAction}
use sio2jail.Printer.{KillReason, set_kill_reason}
use sio2jail.System.{Kernel, World, ◌>>=◌, done, Syscall, read_counter}
use sio2jail.System.Checks.{with_errno_check_lem}
use sio2jail.Perf.Counter.{
  PerfListener, read_count, accept_count, sum_counts, get_instructions_used, on_sigio_signal,
}

-- The counts of the descriptors, each as it is when the descriptor is read, together.
abbrev pub total : (List Syscall → ℕ → ℕ) → List ℕ → List Syscall → ℕ
total count [] h = 0
total count (fd ∷ fds) h = count h fd + total count fds (read_counter fd ∷ h)

abbrev pub reads : List ℕ → List Syscall → List Syscall
reads [] h = h
reads (fd ∷ fds) h = reads fds (read_counter fd ∷ h)

-- Each descriptor is read as a whole, and holds its count so far, which is not negative.
abbrev pub Reads : (List Syscall → ℕ → ℤ) → Kernel → (List Syscall → ℕ → ℕ) → Type 0
Reads counter k count =
    (h : List Syscall) (fd : ℕ)
    → ((k.reply h (read_counter fd)).failed ≡ false)
      × ((k.reply h (read_counter fd)).value ≡ 8)
      × (counter h fd ≡ pos (count h fd))

module _ (counter : List Syscall → ℕ → ℤ) (k : Kernel) (count : List Syscall → ℕ → ℕ)
    (r : Reads counter k count) where
  read_count_lem :
      (fd : ℕ) (w : World)
      → read_count counter fd k w
        ≡ done (count w.history fd, record w { history = read_counter fd ∷ w.history })
  unfolding read_count accept_count
  read_count_lem fd w =
      let (works, size, holds) = r w.history fd in
      rw (with_errno_check_lem [] (read_counter fd) k w, works, holds, size, ◌>>=◌)

  sum_counts_lem :
      (s : ℕ) (fds : List ℕ) (w : World)
      → sum_counts counter (u64 s) fds k w
        ≡ done (u64 (s + total count fds w.history), record w { history = reads fds w.history })
  unfolding sum_counts
  sum_counts_lem s [] w = ap (λ n. done (n, w)) (omega arith)
  sum_counts_lem s (fd ∷ fds) w =
      let v : World = record w { history = read_counter fd ∷ w.history } in
      let c : ℕ = count w.history fd in
      let cs : ℕ = total count fds v.history in
      let wraps : u64 (u64 s + c) ≡ u64 (s + c) = omega arith in
      let joins : s + c + cs ≡ s + (c + cs) = omega arith in
      rw (read_count_lem fd w, ◌>>=◌)
        (ap (λ n. sum_counts counter n fds k v) wraps
          ∙ sum_counts_lem (s + c) fds v
          ∙ ap (λ n. done (u64 n, record v { history = reads fds v.history })) joins)

  -- If the counters can be read, then at SIGIO a kill is asked for, with the reason TLE for the
  -- builder, exactly where there is a limit and the counts of all of them, each as it is when it is
  -- read and added in 64 bits, reach it; nothing is reported otherwise, and each counter is read once.
  pub on_sigio_signal_lem :
      (l : PerfListener) (w : World)
      → on_sigio_signal counter l k w ≡ (
          if not (l.instruction_count_limit == 0)
            && leb l.instruction_count_limit (u64 (total count l.perf_fds w.history))
          then done (
            ExecuteAction.kill,
            record w {
              history = reads l.perf_fds w.history;
              output = set_kill_reason KillReason.tle (codes "time limit exceeded") w.output;
            },
          )
          else done (ExecuteAction.continue, record w { history = reads l.perf_fds w.history }))
  unfolding on_sigio_signal get_instructions_used
  on_sigio_signal_lem l w =
      let sum : sum_counts counter 0 l.perf_fds k w
          ≡ done (
            u64 (total count l.perf_fds w.history),
            record w { history = reads l.perf_fds w.history },
          ) =
        sum_counts_lem 0 l.perf_fds w
        ∙ ap (λ n. done (u64 n, record w { history = reads l.perf_fds w.history })) (omega arith) in
      elim (Bool-cases (
        not (l.instruction_count_limit == 0)
        && leb l.instruction_count_limit (u64 (total count l.perf_fds w.history)))) [
          | inl over ↦ rw (sum, ◌>>=◌, over)
          | inr within ↦ rw (sum, ◌>>=◌, within)
        ]
