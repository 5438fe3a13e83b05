-- ===== src/Printer/Dump.antt =====
-- src/printer: `dump` of the five output formats, and the status code and line that they print.
use sio2jail.Common.{
  ℕ, ◌+◌, ◌-◌, ◌/◌, ◌^◌, ltb, ◌||◌, if◌then◌else◌, Text, codes, u32, [], ◌∷◌, ◌++◌, show,
}
use sio2jail.Printer.{OiModel, KillReason, none, re, rv, tle, mle, ole, kill_reason_name, is_none}

-- `std::endl`.
abbrev pub endl : Text
endl = 10 ∷ []

abbrev pub space : Text
space = codes " "

unfoldable pub dump_status : OiModel → Text
dump_status o =
    if is_none o.kill_reason
    then if ltb 0 o.kill_signal
      then codes "process exited due to signal " ++ show o.kill_signal
      else if ltb 0 o.exit_status
      then codes "runtime error " ++ show o.exit_status
      else codes "ok"
    else o.kill_reason_comment

unfoldable pub reason_code : KillReason → ℕ
reason_code none = 0
reason_code re = 100
reason_code rv = 121
reason_code tle = 125
reason_code mle = 124
reason_code ole = 120

-- The result is an int: the 32 bits of it stand here.
unfoldable pub encode_status_code : OiModel → ℕ
unfolding reason_code
encode_status_code o =
    if is_none o.kill_reason
    then if ltb 0 o.kill_signal
      then u32 (0 + o.kill_signal)
      else if ltb 0 o.exit_status
      then u32 (200 + o.exit_status)
      else reason_code o.kill_reason
    else reason_code o.kill_reason

-- `<<` of an int, given by its bits.
unfoldable pub show_int : ℕ → Text
show_int w = if ltb w (2 ^ 31) then show w else b'-' ∷ show (2 ^ 32 - w)

-- AugmentedOI, RealTimeOI and UserTimeOI turn a plain failure into the reason RE.
unfoldable pub dumped_reason : OiModel → KillReason
dumped_reason o =
    if is_none o.kill_reason
    then if ltb 0 o.kill_signal || ltb 0 o.exit_status then re else o.kill_reason
    else o.kill_reason

-- The columns that follow the first one or two: time, a zero, memory, syscalls; then the status.
unfoldable pub tail_fields : ℕ → OiModel → Text
tail_fields milli_seconds o =
    show milli_seconds
    ++ (space
        ++ (show 0
            ++ (space
                ++ (show o.memory_peak_kb
                    ++ (space ++ (show o.syscalls_counter ++ (endl ++ (dump_status o ++ endl))))))))

unfoldable pub oi_line : ℕ → OiModel → Text
oi_line milli_seconds o =
    kill_reason_name (dumped_reason o)
    ++ (space ++ (show o.exit_status ++ (space ++ tail_fields milli_seconds o)))

pub data Format : Type 0 where
  oitt human oiaug oiuser oireal : Format

-- How `<<` writes `static_cast<float>(ms) / 1000` is an argument: there are no floats here.
module _ (show_seconds : ℕ → Text) where
  unfoldable pub dump : Format → OiModel → Text
  unfolding oi_line
  dump oitt o =
      codes "__RESULT__ "
      ++ (show_int (encode_status_code o) ++ (space ++ tail_fields o.milli_seconds_elapsed o))
  dump human o =
      endl
      ++ (codes "-------------------------"
          ++ (endl
              ++ (codes "Result: "
                  ++ (dump_status o
                      ++ (endl
                          ++ (codes "Time used: "
                              ++ (show_seconds o.milli_seconds_elapsed
                                  ++ (codes "s"
                                      ++ (endl
                                          ++ (codes "Memory used: "
                                              ++ (show (o.memory_peak_kb / 1024)
                                                  ++ (codes "MiB" ++ endl))))))))))))
  dump oiaug o = oi_line o.milli_seconds_elapsed o
  dump oiuser o = oi_line o.user_milli_seconds_elapsed o
  dump oireal o = oi_line o.real_milli_seconds_elapsed o
