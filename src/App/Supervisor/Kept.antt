-- ===== src/App/Supervisor/Kept.antt =====
-- What the other listeners do before the fork and right after it takes back no kill reason.
use sio2jail.Common.{
  ℕ, zero, suc, Bool, true, false, not, ◌&&◌, ◌==◌, if◌then◌else◌, length, codes, Text, List, [],
  ◌∷◌, Option, none, some,
}
use sio2jail.System.Kept.{
  Keeps, keeping, bind-Keeps, if-Keeps, pure-Keeps, throw-Keeps, with_errno_check-Keeps,
  with_errno_check_-Keeps,
}
use sio2jail.System.Kept.Reports.{reporting}
use sio2jail.ProcFs.{drop}
use sio2jail.Files.Descriptor.{progress}
use sio2jail.System.{
  M, ◌>>=◌, ◌>>◌, with_errno_check_, unshare, Reply, throw, system_exception, with_errno_check,
  eagain, eintr, einval, write, capbset_drop, clear_ambient,
}
use sio2jail.Executor.Event.{ExecuteEvent}
use sio2jail.Limits.Output
use sio2jail.Limits.Output.{OutputLimit}
use sio2jail.Seccomp.TimeRandomizer
use sio2jail.Tracer.Tracee.{Tracee, set_registers}
use sio2jail.Tracer.TraceExecutor
use sio2jail.Files.Closing
use sio2jail.Files.Closing.{FilesListener}
use sio2jail.Files.Descriptor
use sio2jail.Namespaces.User
use sio2jail.Namespaces.User.{UserNamespace}
use sio2jail.Namespaces.Pid
use sio2jail.Namespaces.{clone_newuser}
use sio2jail.Privileges

pub files_pre_fork-Keeps :
    (is_logger_fd : ℕ → Bool) (names : List Text) (l : FilesListener)
    → Keeps (Closing.on_pre_fork is_logger_fd names l)
unfolding Closing.on_pre_fork
files_pre_fork-Keeps is_logger_fd names l = search keeping

pub pid_pre_fork-Keeps : Keeps Pid.on_pre_fork
unfolding Pid.on_pre_fork
pid_pre_fork-Keeps = search keeping

-- What follows a call of write.
more : ℕ → ℕ → Bool → ℕ → Text → Reply → M Bool
more fuel fd partial c cs r =
    if not partial && not (progress r == length (c ∷ cs))
    then throw (system_exception r.errno)
    else Descriptor.write_loop fuel fd partial (drop (progress r) (c ∷ cs))

pub write_loop-Keeps :
    (fuel fd : ℕ) (partial : Bool) (rest : Text)
    → Keeps (Descriptor.write_loop fuel fd partial rest)
unfolding Descriptor.write_loop more
write_loop-Keeps zero fd partial rest = pure-Keeps false
write_loop-Keeps (suc fuel) fd partial [] = pure-Keeps true
write_loop-Keeps (suc fuel) fd partial (c ∷ cs) =
    bind-Keeps (with_errno_check (eagain ∷ eintr ∷ []) (write fd (c ∷ cs)))
      (more fuel fd partial c cs) (with_errno_check-Keeps (eagain ∷ eintr ∷ []) (write fd (c ∷ cs)))
      (λ r.
        if-Keeps (not partial && not (progress r == length (c ∷ cs)))
          (throw (system_exception r.errno))
          (Descriptor.write_loop fuel fd partial (drop (progress r) (c ∷ cs))) (throw-Keeps _)
          (write_loop-Keeps fuel fd partial (drop (progress r) (c ∷ cs))))

write_file-Keeps : (path text : Text) → Keeps (User.write_file path text)
unfolding User.write_file Descriptor.open_descriptor Descriptor.write_text
write_file-Keeps path text = search (keeping, write_loop-Keeps) depth 14

map-Keeps : (file : Text) (root child : ℕ) → Keeps (User.write_uid_gid_map file root child)
unfolding User.write_uid_gid_map
map-Keeps file root child = write_file-Keeps _ _

set_groups-Keeps : Keeps User.write_set_groups
unfolding User.write_set_groups
set_groups-Keeps = search write_file-Keeps

own_id-Keeps : (id : ℕ) (ask : M ℕ) → Keeps ask → Keeps (User.own_id id ask)
unfolding User.own_id
own_id-Keeps id ask h = if-Keeps _ _ _ h (pure-Keeps id)

asks-Keeps : Keeps User.ask_uid × Keeps User.ask_gid
unfolding User.ask_uid User.ask_gid
asks-Keeps = (search keeping, search keeping)

with_ids : UserNamespace → ℕ → ℕ → M (Unit {0})
with_ids l uid gid =
    with_errno_check_ [] (unshare clone_newuser)
    >> (User.write_uid_gid_map (codes "uid_map") uid l.child_outside_uid
        >> (User.write_set_groups
            >> User.write_uid_gid_map (codes "gid_map") gid l.child_outside_gid))

with_uid : UserNamespace → ℕ → M (Unit {0})
with_uid l uid = User.own_id l.root_outside_gid User.ask_gid >>= with_ids l uid

pub user_pre_fork-Keeps : (l : UserNamespace) → Keeps (User.on_pre_fork l)
unfolding User.on_pre_fork with_ids with_uid
user_pre_fork-Keeps l =
    bind-Keeps (User.own_id l.root_outside_uid User.ask_uid) (with_uid l)
      (own_id-Keeps l.root_outside_uid User.ask_uid asks-Keeps.0)
      (λ uid.
        bind-Keeps (User.own_id l.root_outside_gid User.ask_gid) (with_ids l uid)
          (own_id-Keeps l.root_outside_gid User.ask_gid asks-Keeps.1)
          (λ gid. search (keeping, map-Keeps, set_groups-Keeps) depth 14))

drop_from-Keeps : (count capability : ℕ) → Keeps (Privileges.drop_from count capability)
unfolding Privileges.drop_from
drop_from-Keeps zero capability = pure-Keeps tt
drop_from-Keeps (suc count) capability =
    bind-Keeps _ _ (with_errno_check_-Keeps (einval ∷ []) (capbset_drop capability))
      (λ u. drop_from-Keeps count (suc capability))

add_secure_bits-Keeps : (bits secure_bits : ℕ) → Keeps (Privileges.add_secure_bits bits secure_bits)
unfolding Privileges.add_secure_bits
add_secure_bits-Keeps bits secure_bits = search keeping

forbid_ambient-Keeps :
    (b : Bool) (secure_bits : ℕ) → Keeps (Privileges.forbid_ambient b secure_bits)
unfolding Privileges.forbid_ambient
forbid_ambient-Keeps false secure_bits = pure-Keeps secure_bits
forbid_ambient-Keeps true secure_bits =
    add_secure_bits-Keeps Privileges.secbit_no_cap_ambient_raise secure_bits

clear_ambient-Keeps : (b : Bool) → Keeps (Privileges.clear_ambient_caps b)
unfolding Privileges.clear_ambient_caps
clear_ambient-Keeps false = pure-Keeps tt
clear_ambient-Keeps true = with_errno_check_-Keeps [] clear_ambient

no_new_privileges-Keeps : (b : Bool) (bits : ℕ) → Keeps (Privileges.no_new_privileges b bits)
unfolding Privileges.no_new_privileges
no_new_privileges-Keeps b bits =
    search (keeping, add_secure_bits-Keeps, forbid_ambient-Keeps) depth 12

drop_caps-Keeps : (b : Bool) (bits : ℕ) → Keeps (Privileges.drop_caps b bits)
unfolding Privileges.drop_caps
drop_caps-Keeps b bits = search (keeping, add_secure_bits-Keeps, clear_ambient-Keeps) depth 12

pub privileges-Keeps :
    (cap_last_cap : ℕ) (b : Bool) (bits : ℕ)
    → Keeps (Privileges.on_post_fork_parent cap_last_cap b bits)
unfolding Privileges.on_post_fork_parent Privileges.drop_b_set
privileges-Keeps cap_last_cap b bits =
    search (keeping, drop_from-Keeps, no_new_privileges-Keeps, drop_caps-Keeps) depth 10

pub tracer_forked-Keeps : (child : ℕ) → Keeps (TraceExecutor.on_post_fork_parent child)
unfolding TraceExecutor.on_post_fork_parent
tracer_forked-Keeps child = search keeping depth 10

pub output_event-Keeps : (e : ExecuteEvent) (l : OutputLimit) → Keeps (Output.on_execute_event e l)
unfolding Output.on_execute_event
output_event-Keeps e l = search (keeping, reporting)

fake_value-Keeps : (b : Bool) → Keeps (TimeRandomizer.fake_value b)
unfolding TimeRandomizer.fake_value
fake_value-Keeps true = pure-Keeps 0
fake_value-Keeps false = search keeping

set_registers-Keeps : (rip rax rdx : ℕ) (t : Tracee) → Keeps (set_registers rip rax rdx t)
unfolding set_registers
set_registers-Keeps rip rax rdx t = search keeping

emulate-Keeps : (b : Bool) (t : Tracee) (size : Option ℕ) → Keeps (TimeRandomizer.emulate b t size)
unfolding TimeRandomizer.emulate
emulate-Keeps b t none = pure-Keeps _
emulate-Keeps b t (some size) = search (keeping, fake_value-Keeps, set_registers-Keeps) depth 12

pub time_randomizer-Keeps :
    (b : Bool) (e : ExecuteEvent) (t : Tracee) → Keeps (TimeRandomizer.on_trace_event b e t)
unfolding TimeRandomizer.on_trace_event
time_randomizer-Keeps b e t = search (keeping, emulate-Keeps) depth 10
