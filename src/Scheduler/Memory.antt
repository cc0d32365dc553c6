-- ===== src/Scheduler/Memory.antt =====
-- scheduler/scheduler.cpp: the memory size in a resource string such as "cpus:1.0;mem:512;disk:32".
use Prim.Native.String.{len}
use text.Mathlib.Text.{find?}
use mesos_framework.Base.{ℕ, ◌+◌, ◌-◌, String, Option, none, some, get_or}
use mesos_framework.Base.Text.{substr}
use mesos_framework.Base.Int.{ℤ, negsuc, Parsed, value, invalid_argument, out_of_range, stoi}

-- The start of the entry is `npos` where there is none, and `npos + 1` is 0.
abbrev after_colon : Option ℕ → ℕ
after_colon none = 0
after_colon (some p) = p + 1

-- `mem_val_str`, for `mem_start_str`.
unfoldable pub mem_value_text : String → String
mem_value_text mem_start_str =
    let mem_end_idx = get_or (len mem_start_str - 1) (find? mem_start_str ";") in
    let mem_str = substr mem_start_str 0 mem_end_idx in
    substr mem_str (after_colon (find? mem_str ":")) (len mem_str)

-- `std::invalid_argument` is caught; `std::out_of_range` is not, and ends the process.
abbrev pub or_minus_one : Parsed → Option ℤ
or_minus_one (value v) = some v
or_minus_one invalid_argument = some (negsuc 0)
or_minus_one out_of_range = none

unfoldable pub mem_mb_from_resource_string : String → Option ℤ
unfolding mem_value_text stoi
mem_mb_from_resource_string resource_string = elim (find? resource_string "mem") [
  | none ↦ some (negsuc 0)
  | some mem_idx ↦
      or_minus_one (stoi (mem_value_text (substr resource_string mem_idx (len resource_string))))
]
