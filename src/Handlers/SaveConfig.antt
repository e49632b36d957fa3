-- ===== src/Handlers/SaveConfig.antt =====
-- handlers/handlers.go: GetConfig and SaveConfig. The JSON decoder and the ETag, a hash of the content,
-- are parameters; the file is what os.ReadFile finds.
use Prim.Native.String.{len}
use llm_server_manager.Base.{
  Bool, not, ◌&&◌, String, ◌==◌, Option, none, some, List, [], ◌∷◌, ℕ, ◌+◌, ltb, if◌then◌else◌, any,
  trim_space,
}
use llm_server_manager.Models.{ModelConfig}
use llm_server_manager.Config.{Config}
use llm_server_manager.Manager.Validate.{ConfigError, validate_config}
use llm_server_manager.Handlers.Etag.{etag_matches}

pub data File : Type 0 where
  absent unreadable : File
  content : String → File

-- Why SaveConfig refuses, with the status codes 413, 400, 500, 500, 400, 400, 400 and 409.
pub data Refusal : Type 0 where
  too_large invalid_json read_failed write_failed : Refusal
  missing_name : ℕ → Refusal
  duplicate_name : String → Refusal
  invalid_model : String → ConfigError → Refusal
  changed_on_disk : String → Refusal

pub data Saved : Type 0 where
  refused : Refusal → Saved
  saved reload_pending : String → Saved

abbrev pub max_config_body_bytes : ℕ
max_config_body_bytes = 1048576

-- The loop over the models, from index `i`, with the names seen.
unfoldable pub check_models : ℕ → List String → List ModelConfig → Option Refusal
check_models i seen [] = none
check_models i seen (m ∷ ms) =
    let rest = check_models (i + 1) (m.name ∷ seen) ms in
    if m.name == ""
    then some (missing_name i)
    else if any (λ n. n == m.name) seen
    then some (duplicate_name m.name)
    else elim (validate_config m) [ some e ↦ some (invalid_model m.name e) | none ↦ rest ]

module _ (etag_of : String → String) where
  -- The precondition on a file's content, for a header that is trimmed.
  check_etag : String → File → Option Refusal
  check_etag if_match absent = none
  check_etag if_match unreadable = some read_failed
  check_etag if_match (content current) =
      if etag_matches if_match (etag_of current)
      then none
      else some (changed_on_disk (etag_of current))

  -- The check of If-Match.
  unfoldable pub check_if_match : String → File → Option Refusal
  unfolding check_etag
  check_if_match if_match file =
      let trimmed = trim_space if_match in
      if not (trimmed == "") && not (trimmed == "*") then check_etag trimmed file else none

  -- The write and the reload, which may both fail. A write that fails leaves the file.
  write_and_reload : String → File → Bool → Bool → File × Saved
  write_and_reload body file writes reloads =
      if not writes
      then (file, refused write_failed)
      else (content body, if reloads then saved (etag_of body) else reload_pending (etag_of body))

  after_check : String → File → Bool → Bool → Option Refusal → File × Saved
  unfolding write_and_reload
  after_check body file writes reloads (some r) = (file, refused r)
  after_check body file writes reloads none = write_and_reload body file writes reloads

  -- SaveConfig on a body that could be read. The new file and the answer.
  unfoldable pub save_config :
      (String → Option Config) → String → String → File → Bool → Bool → File × Saved
  unfolding after_check check_models check_if_match
  save_config decode body if_match file writes reloads =
      if ltb max_config_body_bytes (len body)
      then (file, refused too_large)
      else elim (decode body) [
        | none ↦ (file, refused invalid_json)
        | some cfg ↦ elim (check_models 0 [] cfg.models) [
          | some r ↦ (file, refused r)
          | none ↦ after_check body file writes reloads (check_if_match if_match file)
        ]
      ]

-- What GetConfig answers.
pub data Fetched : Type 0 where
  unavailable : Fetched
  not_modified : String → Fetched
  full : String → String → Fetched

-- GetConfig: the file with its ETag, or only the ETag where If-None-Match names it.
unfoldable pub get_config : (String → String) → String → File → Fetched
get_config etag_of if_none_match (content current) =
    if etag_matches if_none_match (etag_of current)
    then not_modified (etag_of current)
    else full (etag_of current) current
get_config etag_of if_none_match _ = unavailable
