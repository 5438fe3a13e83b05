-- ===== src/System/Sample.antt =====
-- A kernel and a world for the tests: every call succeeds, and the child, number 100, ends with
-- status 3.
use sio2jail.Common.{false, [], ◌∷◌, some, codes}
use sio2jail.Printer
use sio2jail.System.{Kernel, World, Regs, cld_exited}

abbrev pub sample_regs : Regs
sample_regs = record {
  rip = 4096;
  rax = 0;
  rbx = 1;
  rcx = 2;
  rdx = 3;
  rsi = 4;
  rdi = 5;
  rbp = 6;
  r8 = 7;
  r9 = 8;
  r10 = 9;
  orig_rax = 1;
}

abbrev pub sample_kernel : Kernel
sample_kernel = record {
  reply = λ h c. record { failed = false; value = 7; errno = 0 };
  wait_info = λ h. record { si_pid = 100; si_code = cld_exited; si_status = 3 };
  registers = λ h p. sample_regs;
  status_file =
      λ h p. some (codes "Name: a" ∷ codes "VmPeak:  4096 kB" ∷ codes "VmSize: 2048 kB" ∷ []);
  stat_file = λ h p. some (codes "1 (a) R 0 0 0 0 0 0 0 0 0 0 150 25 0");
}

abbrev pub sample_world : World
sample_world = record { history = []; output = Printer.make 0 0 }
