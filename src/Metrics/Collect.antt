-- ===== src/Metrics/Collect.antt =====
-- metrics/metrics.go: Snapshot. metrics/gpu.go: collectGPU and findNvidiaSMI. metrics/sampler_linux.go: readLoad
-- and readCPUModel. What the tools and files give is an argument, or nothing where they fail.
use llm_server_manager.Base.{
  Bool, Option, none, some, List, [], ◌∷◌, String, ℕ, zero, suc, eqb, if◌then◌else◌, Float64,
  length, codes,
}
use llm_server_manager.Metrics.Words.{lines, fields}
use llm_server_manager.Metrics.Memory.{MemoryStats, same_codes}
use llm_server_manager.Metrics.Gpu.{trim, clamp_percent, GpuStats, parse_nvidia}
use llm_server_manager.Metrics.Round.{FloatOps, round1}
use llm_server_manager.Metrics.Rocm.{Card, parse_rocm}
use llm_server_manager.Metrics.Ioreg.{AppleGpu, parse_ioreg}
use llm_server_manager.Metrics.Darwin.{cut_colon}

abbrev pub nvidia_smi_paths : List String
nvidia_smi_paths =
    "nvidia-smi" ∷ "/usr/bin/nvidia-smi" ∷ "/usr/local/bin/nvidia-smi"
    ∷ "/usr/local/nvidia/bin/nvidia-smi" ∷ "/usr/lib/wsl/lib/nvidia-smi" ∷ []

-- The first candidate that exec.LookPath finds.
unfoldable pub first_path : (String → Option String) → List String → Option String
first_path look_path [] = none
first_path look_path (c ∷ cs) = elim (look_path c) [
  | some path ↦ some path
  | none ↦ first_path look_path cs
]

-- findNvidiaSMI.
unfoldable pub find_nvidia_smi : (String → Option String) → Option String
unfolding first_path
find_nvidia_smi look_path = first_path look_path nvidia_smi_paths

-- What the vendors' tools print. `run_nvidia` runs the tool at a path; the answer of rocm-smi is decoded.
pub record Tools : Type 0 where
  pub look_path : String → Option String
  pub run_nvidia : String → Option (List ℕ)
  pub rocm : Option (List Card)
  pub ioreg : Option (List ℕ)

pub data Source : Type 0 where
  nvidia_smi rocm_smi ioreg : Source

-- A graphics card that was found, with the number of cores where the source gives one.
pub record FoundGpu : Type 0 where
  pub source : Source
  pub stats : GpuStats
  pub core_count : ℕ

-- The arithmetic and the texts that the parsers take.
pub record Arith : Type 0 where
  pub parse_float : List ℕ → Option Float64
  pub floats : FloatOps
  pub mib_to_bytes : Float64 → ℕ
  pub lower : List ℕ → List ℕ
  pub truncate : Float64 → ℕ

abbrev pub found : Source → Option GpuStats → Option FoundGpu
found s none = none
found s (some g) = some (record { source = s; stats = g; core_count = 0 })

abbrev pub found_apple : Option AppleGpu → Option FoundGpu
found_apple none = none
found_apple (some a) = some (record { source = ioreg; stats = a.stats; core_count = a.core_count })

module _ (a : Arith) (tools : Tools) where
  -- gpuFromNVIDIA.
  unfoldable pub gpu_from_nvidia : Option FoundGpu
  unfolding find_nvidia_smi parse_nvidia
  gpu_from_nvidia = elim (find_nvidia_smi tools.look_path) [
    | none ↦ none
    | some bin ↦ elim (tools.run_nvidia bin) [
      | none ↦ none
      | some out ↦
          found nvidia_smi (parse_nvidia a.parse_float (round1 a.floats) a.mib_to_bytes out)
    ]
  ]

  -- gpuFromROCm.
  unfoldable pub gpu_from_rocm : Option FoundGpu
  unfolding parse_rocm
  gpu_from_rocm = elim tools.rocm [
    | none ↦ none
    | some cards ↦
        found rocm_smi (parse_rocm a.lower a.parse_float (round1 a.floats) a.truncate cards)
  ]

  -- gpuFromIOReg.
  unfoldable pub gpu_from_ioreg : Option FoundGpu
  unfolding parse_ioreg
  gpu_from_ioreg = elim tools.ioreg [
    | none ↦ none
    | some out ↦ found_apple (parse_ioreg a.parse_float (round1 a.floats) out)
  ]

  -- collectGPU; `none` is a GPU that is not available.
  unfoldable pub collect_gpu : Bool → Option FoundGpu
  unfolding gpu_from_nvidia gpu_from_rocm gpu_from_ioreg
  collect_gpu is_darwin = elim gpu_from_nvidia [
    | some g ↦ some g
    | none ↦ elim gpu_from_rocm [
      | some g ↦ some g
      | none ↦ if is_darwin then gpu_from_ioreg else none
    ]
  ]

module _ (parse_float : List ℕ → Option Float64) (round_1 : Float64 → Float64) where
  -- The first `n` fields, or nothing where one of them is no number.
  unfoldable pub read_floats : ℕ → List (List ℕ) → Option (List Float64)
  read_floats zero fs = some []
  read_floats (suc n) [] = some []
  read_floats (suc n) (f ∷ fs) =
      let rest = read_floats n fs in
      elim (parse_float f) [
        | none ↦ none
        | some v ↦ elim rest [ none ↦ none | some vs ↦ some (round_1 v ∷ vs) ]
      ]

  -- readLoad, on what /proc/loadavg holds.
  unfoldable pub read_load : Option (List ℕ) → Option (List Float64)
  unfolding read_floats
  read_load none = none
  read_load (some content) = read_floats 3 (fields content)

abbrev is_model_name : List ℕ → Bool
is_model_name key = same_codes (trim key) (codes "model name")

unfoldable pub model_line : List (List ℕ) → List ℕ
unfolding trim cut_colon
model_line [] = []
model_line (line ∷ rest) = elim (cut_colon line) [
  | none ↦ model_line rest
  | some (key, value) ↦ if is_model_name key then trim value else model_line rest
]

-- readCPUModel, on what /proc/cpuinfo holds.
unfoldable pub read_cpu_model : Option (List ℕ) → List ℕ
unfolding model_line
read_cpu_model none = []
read_cpu_model (some content) = model_line (lines content)

pub record Snapshot : Type 0 where
  pub cpu_usage : Float64
  pub cores : ℕ
  pub cpu_model : List ℕ
  pub memory : MemoryStats Float64
  pub gpu : Option FoundGpu
  pub load : Option (List Float64)
  pub hostname : String
  pub timestamp : ℕ

-- The parts of a Collector that stay as they are.
pub record Host : Type 0 where
  pub cores : ℕ
  pub cpu_model : List ℕ
  pub hostname : String

-- Loads other than three are left out.
abbrev pub three_loads : Option (List Float64) → Option (List Float64)
three_loads none = none
three_loads (some vs) = if eqb (length vs) 3 then some vs else none

-- Collector.Snapshot, from what its samplers give.
unfoldable pub make_snapshot :
    FloatOps
    → Host
    → Float64
    → MemoryStats Float64
    → Option (List Float64)
    → Option FoundGpu
    → ℕ
    → Snapshot
make_snapshot ops host cpu_usage memory load gpu now = record {
  cpu_usage = round1 ops (clamp_percent cpu_usage);
  cores = host.cores;
  cpu_model = host.cpu_model;
  memory = record memory { usage_percent = round1 ops (clamp_percent memory.usage_percent) };
  gpu = gpu;
  load = three_loads load;
  hostname = host.hostname;
  timestamp = now;
}
