-- ===== src/Perf/Examples.antt =====
-- The theorems on the counter at concrete inputs.
use sio2jail.Common.{ℕ, ◌≡◌, refl, codes, List, [], ◌∷◌, ℤ, pos, false, some, arith, show}
use sio2jail.Executor.Event.{ExecuteAction}
use sio2jail.Printer.{KillReason, set_kill_reason}
use sio2jail.System.{Kernel, Syscall, done, read_counter}
use sio2jail.System.Sample.{sample_kernel, sample_world}
use sio2jail.Perf.Config.{empty, insert_into_config}
use sio2jail.Perf.Config.Range.{config1, insert_into_config_range}
use sio2jail.Perf.Counter.{PerfListener, on_sigio_signal}
use sio2jail.Perf.Counter.Limit.{on_sigio_signal_lem}

-- Every read gives eight bytes.
abbrev reading_kernel : Kernel
reading_kernel = record sample_kernel {
  reply = λ h c. record { failed = false; value = 8; errno = 0 };
}

-- The counters go on while they are read.
abbrev counts : List Syscall → ℕ → ℕ
counts [] fd = 60
counts (c ∷ h) fd = 90

abbrev counter : List Syscall → ℕ → ℤ
counter h fd = pos (counts h fd)

abbrev two_counters : PerfListener
two_counters = record {
  instruction_count_limit = 150;
  sampling_factor = 2;
  perf_fds = 4 ∷ 5 ∷ [];
  child_pid = 100;
}

on_sigio_signal_lem_example :
    on_sigio_signal counter two_counters reading_kernel sample_world
    ≡ done (
      ExecuteAction.kill,
      record sample_world {
        history = read_counter 5 ∷ read_counter 4 ∷ [];
        output = set_kill_reason KillReason.tle (codes "time limit exceeded") sample_world.output;
      },
    )
on_sigio_signal_lem_example =
    on_sigio_signal_lem counter reading_kernel counts (λ h fd. (refl, refl, refl)) two_counters
      sample_world

insert_into_config_range_example :
    insert_into_config (codes "config1:8-15") 46 empty
    ≡ done (some (record empty { config1 = 11776 }))
unfolding show
insert_into_config_range_example =
    insert_into_config_range config1 46 8 7 empty refl (omega arith) (omega arith) (omega arith)
