-- ===== src/Printer/Verdict.antt =====
-- The verdict that a builder holds, and how the codes and names of the formats stand for it.
use sio2jail.Common.{ℕ, ◌-◌, ◌^◌, ◌<◌, ◌≡◌, ltb, ◌==◌, if◌then◌else◌, Text, codes, arith}
use sio2jail.Printer.{OiModel, KillReason, re, rv, tle, mle, ole, kill_reason_name, is_none}
use sio2jail.Printer.Dump.{encode_status_code, dumped_reason}

pub data Verdict : Type 0 where
  accepted : Verdict
  signalled : ℕ → Verdict
  exited : ℕ → Verdict
  stopped : KillReason → Verdict

-- A kill reason comes before a signal, and a signal before an exit status.
pub verdict : OiModel → Verdict
verdict o =
    if is_none o.kill_reason
    then if ltb 0 o.kill_signal
      then signalled o.kill_signal
      else if ltb 0 o.exit_status
      then exited o.exit_status
      else accepted
    else stopped o.kill_reason

-- How a reader of the oitt format understands its code.
pub decode : ℕ → Verdict
decode code =
    if code == 0
    then accepted
    else if ltb code 100
    then signalled code
    else if code == 100
    then stopped re
    else if code == 120
    then stopped ole
    else if code == 121
    then stopped rv
    else if code == 124
    then stopped mle
    else if code == 125
    then stopped tle
    else exited (code - 200)

pub verdict_name : Verdict → Text
verdict_name accepted = codes "OK"
verdict_name (signalled s) = codes "RE"
verdict_name (exited e) = codes "RE"
verdict_name (stopped r) = kill_reason_name r

-- The code of the oitt format tells the whole verdict: decoding it gives back the kill reason, or
-- else the signal, or else the exit status, if the signal is below 100 and the exit status leaves
-- room for the base 200.
pub decode-encode_status_code :
    (o : OiModel)
    → o.kill_signal < 100
    → o.exit_status < 2 ^ 32 - 200
    → decode (encode_status_code o) ≡ verdict o
unfolding decode encode_status_code verdict
decode-encode_status_code o hs he = ground arith

-- The name that the oiaug, oiuser and oireal formats print is that of the same verdict.
pub kill_reason_name-dumped_reason :
    (o : OiModel) → kill_reason_name (dumped_reason o) ≡ verdict_name (verdict o)
unfolding dumped_reason verdict verdict_name kill_reason_name
kill_reason_name-dumped_reason o = ground arith
