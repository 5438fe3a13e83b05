-- ===== src/Printer/Examples.antt =====
-- Tests of the printers, and their theorems at concrete inputs.
use sio2jail.Common.{◌≡◌, refl, [], ◌∷◌, codes, arith}
use sio2jail.Printer
use sio2jail.Printer.{OiModel, KillReason, kill_reason_name}
use sio2jail.Printer.Calls.{run, run_first_reason, kill_reason, memory_peak, kill_signal}
use sio2jail.Printer.Dump.{encode_status_code}
use sio2jail.Printer.Verdict.{decode, verdict, decode-encode_status_code}

abbrev failed : OiModel
failed = record (Printer.make 0 0) {
  exit_status = 3;
  milli_seconds_elapsed = 12;
  memory_peak_kb = 640;
}

run_first_reason_example :
    ((run
        (memory_peak 9
          ∷ kill_signal 9
          ∷ kill_reason KillReason.tle (codes "late")
          ∷ kill_reason KillReason.mle (codes "big")
          ∷ [])
        (Printer.make 0 0)).kill_reason
      ≡ KillReason.tle)
    × ((run
          (memory_peak 9
            ∷ kill_signal 9
            ∷ kill_reason KillReason.tle (codes "late")
            ∷ kill_reason KillReason.mle (codes "big")
            ∷ [])
          (Printer.make 0 0)).kill_reason_comment
        ≡ codes "late")
unfolding Printer.make
run_first_reason_example =
    run_first_reason (memory_peak 9 ∷ kill_signal 9 ∷ [])
      (kill_reason KillReason.mle (codes "big") ∷ []) KillReason.tle (codes "late")
      (Printer.make 0 0) refl (tt, (tt, tt)) (λ e. ground (arith, e))

decode-encode_status_code_example : decode (encode_status_code failed) ≡ verdict failed
unfolding Printer.make
decode-encode_status_code_example = decode-encode_status_code failed (omega arith) (omega arith)
