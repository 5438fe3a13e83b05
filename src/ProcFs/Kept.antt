-- ===== src/ProcFs/Kept.antt =====
-- Reading takes back no kill reason.
use sio2jail.Common.{ℕ, Text, List, Option, none, some}
use sio2jail.ProcFs.{lift, read_proc_fs, read_file, Field}
use sio2jail.System.{Outcome, done, threw}
use sio2jail.System.Kept.{Keeps, keeping, pure-Keeps, throw-Keeps}

pub lift-Keeps : {A : Type 0} (o : Outcome A) → Keeps (lift o)
unfolding lift
lift-Keeps (done a) = pure-Keeps a
lift-Keeps (threw e) = throw-Keeps e

read_file-Keeps :
    (field : Field) (default_value : ℕ) (file : Option (List Text))
    → Keeps (read_file field default_value file)
unfolding read_file
read_file-Keeps field default_value none = pure-Keeps default_value
read_file-Keeps field default_value (some lines) = lift-Keeps _

pub read_proc_fs-Keeps : (pid : ℕ) (field : Field) → Keeps (read_proc_fs pid field)
unfolding read_proc_fs
read_proc_fs-Keeps pid field = search (keeping, read_file-Keeps)
