-- ===== src/Perf/Devices.antt =====
-- perf/PerfListener.cc, onPostForkParent: the events of the devices in /sys/devices. The first words
-- of a device's files, empty where there is none, are a parameter.
use sio2jail.Common.{
  ℕ, Bool, not, ◌&&◌, ◌||◌, if◌then◌else◌, Text, codes, text_eq, u32, List, [], ◌∷◌, Option, none,
  some,
}
use sio2jail.Stream.{is_empty, skip_spaces}
use sio2jail.System.{Outcome, done, threw, assertion_exception, exception}
use sio2jail.ProcFs.{stoull_hex}
use sio2jail.App.BindMounts.{tokens_of}
use sio2jail.Perf.Config.{
  EventConfig, empty, Partial, ◌>>=◌, check, config_field_number, or_field, stoul,
  insert_into_config,
}

pub record Device : Type 0 where
  pub name : Text
  pub cpus : Text
  pub type : Text
  pub instructions : Text
  pub format : Text → Text

-- A directory with the name "cpu", or with a file of cpus, that has a type.
unfoldable pub is_counter : Device → Bool
unfolding text_eq is_empty
is_counter d = (text_eq d.name (codes "cpu") || not (is_empty d.cpus)) && not (is_empty d.type)

unfoldable pub defined : {A : Type 0} → Outcome A → Partial A
defined (done a) = done (some a)
defined (threw e) = threw e

unfoldable pub assign_attribute : Device → Text → ℕ → Option ℕ → EventConfig → Partial EventConfig
unfolding or_field insert_into_config is_empty
assign_attribute d name value (some field) c = or_field field value c
assign_attribute d name value none c = do
  u ← check (not (is_empty (d.format name)))
  insert_into_config (d.format name) value c

-- One of the attributes, as "event=0x2e".
unfoldable pub add_attribute : Device → List Text → EventConfig → Partial EventConfig
unfolding assign_attribute defined stoull_hex skip_spaces config_field_number
add_attribute d (name ∷ hex ∷ []) c = do
  value ← defined (stoull_hex (skip_spaces hex))
  assign_attribute d name value (config_field_number name) c
add_attribute d _ c = threw assertion_exception

unfoldable pub add_attributes : Device → List Text → EventConfig → Partial EventConfig
unfolding add_attribute tokens_of
add_attributes d [] c = done (some c)
add_attributes d (s ∷ ss) c = do
  c' ← add_attribute d (tokens_of s (codes "=0x")) c
  add_attributes d ss c'

unfoldable pub event_config : Device → Partial EventConfig
unfolding add_attributes stoul is_empty
event_config d = do
  type ← stoul d.type
  u ← check (not (is_empty d.instructions))
  add_attributes d (tokens_of d.instructions (codes ",")) (record empty { type = u32 type })

unfoldable pub all_configs : List Device → Partial (List EventConfig)
unfolding event_config is_counter
all_configs [] = done (some [])
all_configs (d ∷ ds) =
    if is_counter d
    then (do c ← event_config d; cs ← all_configs ds; done (some (c ∷ cs)))
    else all_configs ds

unfoldable pub at_least_one : List EventConfig → Partial (List EventConfig)
at_least_one [] = threw exception
at_least_one (c ∷ cs) = done (some (c ∷ cs))

unfoldable pub event_configs : List Device → Partial (List EventConfig)
unfolding all_configs at_least_one
event_configs ds = do cs ← all_configs ds; at_least_one cs
