-- ===== src/Limits/Time/Timer.antt =====
-- The timer that wakes the supervisor: its first tick is the nearest limit.
use sio2jail.Common.{
  ℕ, List, ◌+◌, ◌*◌, ◌/◌, ◌%◌, ◌≤◌, ◌<◌, ◌≡◌, ◌≢◌, ◌⊎◌, true, false, [], ◌∷◌, arith,
}
use sio2jail.System.{Kernel, World, ◌>>=◌, Syscall, done, timer_create, timer_settime, clock_now}
use sio2jail.System.Checks.{with_errno_check_-succeeds}
use sio2jail.Limits.Time.{TimeLimits, first_timer_tick, start_timer, on_post_fork_parent, max_u64}

-- The first tick is no later than any limit that is set, and it is one of the limits, or the
-- greatest 64-bit number, if each limit is one of 64 bits.
pub first_timer_tick_nearest :
    (l : TimeLimits)
    → l.r_time_limit_us ≤ max_u64
    → l.u_time_limit_us ≤ max_u64
    → l.s_time_limit_us ≤ max_u64
    → l.us_time_limit_us ≤ max_u64
    → (0 < first_timer_tick l)
      × ((l.r_time_limit_us ≡ 0) ⊎ (first_timer_tick l ≤ l.r_time_limit_us))
      × ((l.u_time_limit_us ≡ 0) ⊎ (first_timer_tick l ≤ l.u_time_limit_us))
      × ((l.s_time_limit_us ≡ 0) ⊎ (first_timer_tick l ≤ l.s_time_limit_us))
      × ((l.us_time_limit_us ≡ 0) ⊎ (first_timer_tick l ≤ l.us_time_limit_us))
      × ((first_timer_tick l ≡ l.r_time_limit_us)
          ⊎ ((first_timer_tick l ≡ l.u_time_limit_us)
              ⊎ ((first_timer_tick l ≡ l.s_time_limit_us)
                  ⊎ ((first_timer_tick l ≡ l.us_time_limit_us) ⊎ (first_timer_tick l ≡ max_u64)))))
unfolding first_timer_tick
first_timer_tick_nearest l hr hu hs hus = ground arith

start_timer-arms :
    (tick : ℕ) (k : Kernel) (w : World)
    → tick ≢ max_u64
    → ((h : List Syscall) → (k.reply h timer_create).failed ≡ false)
    → ((h : List Syscall) (a b c d : ℕ) → (k.reply h (timer_settime a b c d)).failed ≡ false)
    → start_timer tick k w
      ≡ done (
        true,
        record w {
          history =
              timer_settime (tick / 1000000) (tick % 1000000 * 1000) 0 200_000_000
              ∷ timer_create
              ∷ w.history;
        },
      )
unfolding start_timer
start_timer-arms tick k w h hc hs = ground (
  arith,
  with_errno_check_-succeeds [] timer_create k w (hc w.history),
  with_errno_check_-succeeds [] _ k (record w { history = timer_create ∷ w.history })
      (hs (timer_create ∷ w.history) (tick / 1000000) (tick % 1000000 * 1000) 0 200_000_000),
)

-- What the next theorem says of a started child.
abbrev pub Armed : TimeLimits → ℕ → Kernel → World → Type 0
Armed l child k w =
    (sec nsec : ℕ) × (on_post_fork_parent child l k w
      ≡ done (
        record l {
          child_pid = child;
          start_real_time = (k.reply w.history clock_now).value;
          is_timer_created = true;
        },
        record w {
          history = timer_settime sec nsec 0 200_000_000 ∷ timer_create ∷ clock_now ∷ w.history;
        },
      ))
    × (sec * 1_000_000_000 + nsec ≡ first_timer_tick l * 1000)
    × (nsec < 1_000_000_000)

-- If there is a first tick before the greatest 64-bit number and both timer calls succeed, then the
-- start of the child is noted and a timer is set that first fires exactly at that tick and from
-- then on every 200 ms, with a number of nanoseconds that timer_settime accepts.
pub on_post_fork_parent_arms :
    (l : TimeLimits) (child : ℕ) (k : Kernel) (w : World)
    → first_timer_tick l ≢ max_u64
    → ((h : List Syscall) → (k.reply h timer_create).failed ≡ false)
    → ((h : List Syscall) (a b c d : ℕ) → (k.reply h (timer_settime a b c d)).failed ≡ false)
    → Armed l child k w
unfolding on_post_fork_parent
on_post_fork_parent_arms l child k w h hc hs = (
  first_timer_tick l / 1000000,
  first_timer_tick l % 1000000 * 1000,
  rw (
    start_timer-arms (first_timer_tick l) k (record w { history = clock_now ∷ w.history }) h hc hs,
    ◌>>=◌,
  ),
  omega arith,
  omega arith,
)
