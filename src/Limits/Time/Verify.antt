-- ===== src/Limits/Time/Verify.antt =====
-- When a time limit is exceeded: the test that the listener makes, against its meaning.
use sio2jail.Common.{ℕ, ◌+◌, ◌<◌, ◌≡◌, ◌⊎◌, Bool, ◌&&◌, ltb, if◌then◌else◌, Text, codes, u64, arith}
use sio2jail.Executor.Event.{ExecuteAction}
use sio2jail.Printer.{KillReason, set_kill_reason}
use sio2jail.System.{Kernel, World, done}
use sio2jail.Limits.Time.{TimeLimits, TimeUsage, verify_time_usage}

-- A limit of 0 is none.
abbrev pub Exceeds : ℕ → ℕ → Type 0
Exceeds limit usage = (0 < limit) × (limit < usage)

-- One of the four limits is exceeded. The sum of the two times is one of 64 bits.
abbrev pub ExceedsSome : TimeLimits → TimeUsage → Type 0
ExceedsSome l t =
    Exceeds l.r_time_limit_us t.real_time_us
    ⊎ (Exceeds l.u_time_limit_us t.process_time_us.u_time_us
        ⊎ (Exceeds l.s_time_limit_us t.process_time_us.s_time_us
            ⊎ Exceeds l.us_time_limit_us
                (u64 (t.process_time_us.u_time_us + t.process_time_us.s_time_us))))

abbrev over : ℕ → ℕ → Bool
over limit usage = ltb 0 limit && ltb limit usage

-- The limit that is reported, in the order real, user, system, user and system.
pub exceeded_comment : TimeLimits → TimeUsage → Text
exceeded_comment l t =
    if over l.r_time_limit_us t.real_time_us
    then codes "real time limit exceeded"
    else if over l.u_time_limit_us t.process_time_us.u_time_us
    then codes "user time limit exceeded"
    else if over l.s_time_limit_us t.process_time_us.s_time_us
    then codes "system time limit exceeded"
    else codes "user+system time limit exceeded"

-- When some limit is exceeded the verification asks for a kill, and changes nothing but the
-- builder, which is given the reason TLE and a comment that names the first exceeded limit.
pub verify_time_usage_exceeded :
    (l : TimeLimits) (t : TimeUsage) (k : Kernel) (w : World)
    → ExceedsSome l t
    → verify_time_usage l t k w
      ≡ done (
        ExecuteAction.kill,
        record w { output = set_kill_reason KillReason.tle (exceeded_comment l t) w.output },
      )
unfolding verify_time_usage exceeded_comment
verify_time_usage_exceeded l t k w h = ground arith

-- When no limit is exceeded the verification goes on, and changes nothing.
pub verify_time_usage_within :
    (l : TimeLimits) (t : TimeUsage) (k : Kernel) (w : World)
    → ¬ ExceedsSome l t
    → verify_time_usage l t k w ≡ done (ExecuteAction.continue, w)
unfolding verify_time_usage
verify_time_usage_within l t k w h = ground arith
