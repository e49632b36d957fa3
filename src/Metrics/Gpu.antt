-- ===== src/Metrics/Gpu.antt =====
-- metrics/gpu.go: parseNVIDIA. metrics/metrics.go: clampPercent and the cache of gpuSnapshot. The reading of a
-- float64, its rounding to one decimal and its conversion from MiB to bytes are float64 arithmetic and
-- parameters.
use llm_server_manager.Base.{
  Bool, false, ◌&&◌, ◌||◌, not, Option, none, some, List, [], ◌∷◌, ℕ, ◌+◌, ◌-◌, ◌%◌, ◌^◌, eqb, ltb,
  if◌then◌else◌, is_some, is_space, Float64, float_of, is_nan, ltb_float,
}
use llm_server_manager.Metrics.Words.{split_by, lines, is_empty}

-- clampPercent.
unfoldable pub clamp_percent : Float64 → Float64
clamp_percent v =
    if is_nan v || ltb_float v (float_of 0)
    then float_of 0
    else if ltb_float (float_of 100) v
    then float_of 100
    else v

unfoldable pub trim_front : List ℕ → List ℕ
trim_front [] = []
trim_front (c ∷ s) = if is_space c then trim_front s else c ∷ s

unfoldable pub trim_back : List ℕ → List ℕ
trim_back [] = []
trim_back (c ∷ s) = let rest = trim_back s in if is_empty rest && is_space c then [] else c ∷ rest

-- strings.TrimSpace.
unfoldable pub trim : List ℕ → List ℕ
unfolding trim_front trim_back
trim s = trim_back (trim_front s)

-- A row that is of use: the name and what could be read.
pub record Row : Type 0 where
  pub name : List ℕ
  pub usage : Option Float64
  pub used : Option ℕ
  pub total : Option ℕ

pub record GpuStats : Type 0 where
  pub usage_percent : Float64
  pub memory_used_bytes : ℕ
  pub memory_total_bytes : ℕ
  pub name : List ℕ
  pub count : ℕ

abbrev pub no_gpu : GpuStats
no_gpu = record {
  usage_percent = float_of 0;
  memory_used_bytes = 0;
  memory_total_bytes = 0;
  name = [];
  count = 0;
}

-- A memory field added as uint64, where there is one.
abbrev pub add_bytes : Option ℕ → ℕ → ℕ
add_bytes none n = n
add_bytes (some k) n = (n + k) % 2 ^ 64

-- A percentage that could be read, where it is higher than the highest so far.
abbrev pub raise_usage : (Float64 → Float64) → Option Float64 → Float64 → Float64
raise_usage round_1 none u = u
raise_usage round_1 (some v) u =
    if ltb_float u (clamp_percent v) then round_1 (clamp_percent v) else u

module _ (parse_float : List ℕ → Option Float64) (round_1 : Float64 → Float64)
    (to_bytes : Float64 → ℕ) where
  -- parseMiB.
  unfoldable pub parse_mib : List ℕ → Option ℕ
  unfolding trim
  parse_mib s = elim (parse_float (trim s)) [
    | none ↦ none
    | some v ↦ if ltb_float v (float_of 0) then none else some (to_bytes v)
  ]

  -- A field that may be absent.
  abbrev memory_field : List (List ℕ) → Option ℕ
  memory_field [] = none
  memory_field (f ∷ fs) = parse_mib f

  abbrev after_first : List (List ℕ) → List (List ℕ)
  after_first [] = []
  after_first (f ∷ fs) = fs

  -- The fields of one line; `none` for a line that is passed over.
  unfoldable pub read_row : List (List ℕ) → Option Row
  unfolding parse_mib trim
  read_row (name ∷ usage ∷ fs) =
      let row : Row = record {
        name = trim name;
        usage = parse_float (trim usage);
        used = memory_field fs;
        total = memory_field (after_first fs);
      } in
      if is_empty (trim name)
        || not (is_some row.usage) && not (is_some row.used) && not (is_some row.total)
      then none
      else some row
  read_row _ = none

  unfoldable pub add_row : Row → GpuStats → GpuStats
  unfolding clamp_percent
  add_row row gpu = record {
    usage_percent = raise_usage round_1 row.usage gpu.usage_percent;
    memory_used_bytes = add_bytes row.used gpu.memory_used_bytes;
    memory_total_bytes = add_bytes row.total gpu.memory_total_bytes;
    name = if eqb gpu.count 0 then row.name else gpu.name;
    count = gpu.count + 1;
  }

  abbrev pub add_if_read : Option Row → GpuStats → GpuStats
  add_if_read none gpu = gpu
  add_if_read (some row) gpu = add_row row gpu

  -- The loop over the lines.
  unfoldable pub add_rows : List (List ℕ) → GpuStats → GpuStats
  unfolding read_row add_row
  add_rows [] gpu = gpu
  add_rows (line ∷ rest) gpu =
      add_rows rest (add_if_read (read_row (split_by (λ c. eqb c b',') line)) gpu)

  -- parseNVIDIA.
  unfoldable pub parse_nvidia : List ℕ → Option GpuStats
  unfolding add_rows
  parse_nvidia out =
      let gpu = add_rows (lines out) no_gpu in if eqb gpu.count 0 then none else some gpu

-- The collector's cache of one value of any type.
pub record GpuCache (G : Type 0) : Type 0 where
  pub gpu : G
  pub at : Option ℕ

-- gpuCacheTTL, two seconds.
abbrev pub gpu_cache_ttl : ℕ
gpu_cache_ttl = 2000000000

abbrev pub is_recent : Option ℕ → ℕ → Bool
is_recent none now = false
is_recent (some at) now = ltb (now - at) gpu_cache_ttl

-- gpuSnapshot, at `now`; what collectGPU brings is stored at `later`.
unfoldable pub gpu_snapshot : {G : Type 0} → G → ℕ → ℕ → GpuCache G → GpuCache G × G
gpu_snapshot collected now later c =
    if is_recent c.at now
    then (c, c.gpu)
    else (record { gpu = collected; at = some later }, collected)
