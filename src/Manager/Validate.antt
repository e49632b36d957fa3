-- ===== src/Manager/Validate.antt =====
-- manager/manager.go: ValidateModelConfig and validateModelConfig. Each error message is a
-- constructor; `none` is the nil error.
use llm_server_manager.Base.{
  Bool, false, ◌&&◌, ◌||◌, not, Option, none, some, String, ◌==◌, if◌then◌else◌, pos, leb_ℤ,
  Float64, float_of, ltb_float,
}
use llm_server_manager.Models.{ModelConfig, has_launch_cmd}

pub data ConfigError : Type 0 where
  empty_name model_path_required threads_not_positive temperature_out_of_range : ConfigError
  presence_penalty_out_of_range repetition_penalty_negative model_file_missing : ConfigError

abbrev pub out_of_range : Float64 → Bool
out_of_range t = ltb_float t (float_of 0) || ltb_float (float_of 2) t

abbrev pub presence_bad : Option Float64 → Bool
presence_bad none = false
presence_bad (some p) = out_of_range p

abbrev pub repetition_bad : Option Float64 → Bool
repetition_bad none = false
repetition_bad (some p) = ltb_float p (float_of 0)

-- The checks on the fields that a launch command makes irrelevant.
unfoldable pub check_ranges : ModelConfig → Option ConfigError
check_ranges c =
    if leb_ℤ c.threads (pos 0)
    then some threads_not_positive
    else if out_of_range c.temperature
    then some temperature_out_of_range
    else if presence_bad c.presence_penalty
    then some presence_penalty_out_of_range
    else if repetition_bad c.repetition_penalty
    then some repetition_penalty_negative
    else none

unfoldable pub validate_config : ModelConfig → Option ConfigError
unfolding check_ranges
validate_config c =
    if c.name == ""
    then some empty_name
    else if not (has_launch_cmd c) && c.model_path == ""
    then some model_path_required
    else if has_launch_cmd c
    then none
    else check_ranges c

-- validateModelConfig: `missing` says which paths os.Stat reports as not existing.
unfoldable pub validate_start : (String → Bool) → ModelConfig → Option ConfigError
validate_start missing c = elim (validate_config c) [
  | some e ↦ some e
  | none ↦ if not (has_launch_cmd c) && missing c.model_path then some model_file_missing else none
]
