-- ===== src/Seccomp/Library.antt =====
-- The data that libseccomp is given: the comparisons and the actions of seccomp.h.
use sio2jail.Common.{ℕ}

-- The comparisons of seccomp.h.
pub data Compare : Type 0 where
  cmp_ne cmp_lt cmp_le cmp_eq cmp_ge cmp_gt cmp_masked_eq : Compare

-- `scmp_arg_cmp`; the second datum is 0 but for the masked comparison.
pub record ArgCmp : Type 0 where
  pub arg : ℕ
  pub op : Compare
  pub datum_a : ℕ
  pub datum_b : ℕ

pub data LibAction : Type 0 where
  act_allow act_kill : LibAction
  act_trace act_errno : (value : ℕ) → LibAction
