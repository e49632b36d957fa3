-- ===== src/Manager/Command.antt =====
-- manager/manager.go: buildCommand, the arguments that llama-server is started with. The formats %d and
-- %f of fmt are parameters, and so is which files exist.
use llm_server_manager.Base.{
  Bool, not, ◌&&◌, String, ◌==◌, Option, none, some, List, [], ◌∷◌, ◌++◌, ℤ, pos, ltb_ℤ, Float64,
  float_of, ltb_float, if◌then◌else◌, from_option,
}
use llm_server_manager.Models.{ModelConfig}

-- *config.TopP > 0.0 && *config.TopP <= 1.0.
abbrev in_unit : Float64 → Bool
in_unit p = ltb_float (float_of 0) p && not (ltb_float (float_of 1) p)

module _ (show_int : ℤ → String) (show_float : Float64 → String) (missing : String → Bool) where
  -- A flag with a number, where that is positive.
  abbrev positive_arg : String → Option ℤ → List String
  positive_arg flag none = []
  positive_arg flag (some n) = if ltb_ℤ (pos 0) n then flag ∷ show_int n ∷ [] else []

  abbrev float_arg : String → Option Float64 → List String
  float_arg flag none = []
  float_arg flag (some x) = flag ∷ show_float x ∷ []

  abbrev mmproj_arg : Option String → List String
  mmproj_arg none = []
  mmproj_arg (some path) =
      if path == "" then [] else if missing path then [] else "--mmproj" ∷ path ∷ []

  abbrev top_p_arg : Option Float64 → List String
  top_p_arg none = []
  top_p_arg (some p) = if in_unit p then "--top-p" ∷ show_float p ∷ [] else []

  abbrev template_arg : Option String → List String
  template_arg none = []
  template_arg (some s) = if s == "" then [] else "--chat-template-kwargs" ∷ s ∷ []

  abbrev mmap_arg : Option Bool → List String
  mmap_arg none = []
  mmap_arg (some b) = if b then [] else "--no-mmap" ∷ []

  abbrev draft_arg : Option ℤ → List String
  draft_arg none = []
  draft_arg (some n) =
      if ltb_ℤ (pos 0) n
      then "--spec-type" ∷ "draft-mtp" ∷ "--spec-draft-n-max" ∷ show_int n ∷ []
      else []

  -- The arguments that are always there.
  abbrev base_args : ModelConfig → List String
  base_args c =
      "-a"
      ∷ c.name
      ∷ "-m"
      ∷ c.model_path
      ∷ "-t"
      ∷ show_int c.threads
      ∷ "--temp"
      ∷ show_float c.temperature
      ∷ "--no-webui"
      ∷ "--host"
      ∷ "0.0.0.0"
      ∷ "--port"
      ∷ show_int (from_option (pos 8081) c.port)
      ∷ []

  abbrev log_arg : Bool → List String
  log_arg enable_logging = if enable_logging then [] else "--log-disable" ∷ []

  -- The arguments that depend on what is configured.
  abbrev pub optional_args : Bool → ModelConfig → List String
  optional_args enable_logging c =
      positive_arg "-c" c.context_size
      ++ (log_arg enable_logging
          ++ (mmproj_arg c.mmproj
              ++ (positive_arg "--top-k" c.top_k
                  ++ (top_p_arg c.top_p
                      ++ (float_arg "--presence-penalty" c.presence_penalty
                          ++ (float_arg "--repeat-penalty" c.repetition_penalty
                              ++ (template_arg c.chat_template_kwargs
                                  ++ (positive_arg "-ngl" c.ngl
                                      ++ (mmap_arg c.mmap ++ draft_arg c.spec_draft_n_max)))))))))

  unfoldable pub build_command : Bool → ModelConfig → List String
  build_command enable_logging c = base_args c ++ optional_args enable_logging c
