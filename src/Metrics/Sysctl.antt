-- ===== src/Metrics/Sysctl.antt =====
-- metrics/sampler_darwin.go: readLoad and readCPUModel, on what sysctl prints. `none` is a call that fails.
use llm_server_manager.Base.{
  Bool, ◌||◌, ◌&&◌, Option, none, some, List, [], ◌∷◌, ℕ, eqb, if◌then◌else◌, Float64,
}
use llm_server_manager.Metrics.Words.{fields, is_empty}
use llm_server_manager.Metrics.Gpu.{trim}
use llm_server_manager.Metrics.Collect.{read_floats}

abbrev is_brace : ℕ → Bool
is_brace c = eqb c b'{' || eqb c b'}'

unfoldable pub braces_front : List ℕ → List ℕ
braces_front [] = []
braces_front (c ∷ s) = if is_brace c then braces_front s else c ∷ s

unfoldable pub braces_back : List ℕ → List ℕ
braces_back [] = []
braces_back (c ∷ s) =
    let rest = braces_back s in if is_empty rest && is_brace c then [] else c ∷ rest

-- strings.Trim with the set of both braces.
unfoldable pub trim_braces : List ℕ → List ℕ
unfolding braces_front braces_back
trim_braces s = braces_back (braces_front s)

-- readLoad.
unfoldable pub sysctl_load :
    (List ℕ → Option Float64) → (Float64 → Float64) → Option (List ℕ) → Option (List Float64)
unfolding trim_braces
sysctl_load parse_float round_1 none = none
sysctl_load parse_float round_1 (some out) =
    read_floats parse_float round_1 3 (fields (trim_braces (trim out)))

-- readCPUModel.
unfoldable pub sysctl_cpu_model : Option (List ℕ) → List ℕ
sysctl_cpu_model none = []
sysctl_cpu_model (some out) = trim out
