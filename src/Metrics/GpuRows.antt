-- ===== src/Metrics/GpuRows.antt =====
-- metrics/gpu.go: what parseNVIDIA makes of its rows.
use llm_server_manager.Base.{
  ◌≡◌, subst, refl, sym, ◌∙◌, ◌⊎◌, inl, inr, false, ◌||◌, Option, none, some, List, [], ◌∷◌, ℕ, ◌+◌,
  ◌%◌, ◌^◌, ◌<◌, eqb, if_cases, Option-cases, Bool-cases, from_option, arith, Float64, float_of,
  is_nan, ltb_float, length,
}
use llm_server_manager.Metrics.Words.{split_by, lines}
use llm_server_manager.Metrics.Gpu.{
  clamp_percent, Row, GpuStats, no_gpu, add_bytes, read_row, raise_usage, add_row, add_rows,
  parse_nvidia,
}

-- A percentage between 0 and 100.
abbrev pub IsPercent : Float64 → Type 0
IsPercent x =
    (is_nan x ≡ false) × (ltb_float x (float_of 0) ≡ false) × (ltb_float (float_of 100) x ≡ false)

pub zero-IsPercent : IsPercent (float_of 0)
unfolding ltb_float
zero-IsPercent = (refl, refl, refl)

full-IsPercent : IsPercent (float_of 100)
unfolding ltb_float
full-IsPercent = (refl, refl, refl)

pub clamp_percent-IsPercent : (v : Float64) → IsPercent (clamp_percent v)
unfolding clamp_percent
clamp_percent-IsPercent v =
    if_cases IsPercent (is_nan v || ltb_float v (float_of 0)) (λ _. zero-IsPercent)
      λ a.
        if_cases IsPercent (ltb_float (float_of 100) v) (λ _. full-IsPercent)
          λ b. (ground (arith, a), ground (arith, a), b)

pub raise_usage-IsPercent :
    (round_1 : Float64 → Float64)
    → ((v : Float64) → IsPercent v → IsPercent (round_1 v))
    → (o : Option Float64) (u : Float64) → IsPercent u
    → IsPercent (raise_usage round_1 o u)
raise_usage-IsPercent round_1 rounds none u h = h
raise_usage-IsPercent round_1 rounds (some v) u h =
    if_cases IsPercent (ltb_float u (clamp_percent v))
      (λ _. rounds (clamp_percent v) (clamp_percent-IsPercent v)) (λ _. h)

-- The numbers that could be read, added up.
abbrev pub sum_of : (Row → Option ℕ) → List Row → ℕ
sum_of f [] = 0
sum_of f (r ∷ rs) = from_option 0 (f r) + sum_of f rs

-- What the statistics say of the rows of use.
pub record Sums (rows : List Row) (gpu : GpuStats) : Type 0 where
  pub counted : gpu.count ≡ length rows
  pub used : gpu.memory_used_bytes ≡ sum_of (λ r. r.used) rows % 2 ^ 64
  pub total : gpu.memory_total_bytes ≡ sum_of (λ r. r.total) rows % 2 ^ 64
  pub named : (r : Row) (rs : List Row) → rows ≡ r ∷ rs → gpu.name ≡ r.name
  pub percent : IsPercent gpu.usage_percent

module _ (parse_float : List ℕ → Option Float64) (round_1 : Float64 → Float64)
    (to_bytes : Float64 → ℕ) where
  abbrev pub prepend_row : Option Row → List Row → List Row
  prepend_row none rs = rs
  prepend_row (some r) rs = r ∷ rs

  -- The rows of use among the lines.
  abbrev pub rows_of : List (List ℕ) → List Row
  rows_of [] = []
  rows_of (line ∷ rest) =
      prepend_row (read_row parse_float round_1 to_bytes (split_by (λ c. eqb c b',') line))
        (rows_of rest)

  -- The rows added in order.
  abbrev pub add_all : List Row → GpuStats → GpuStats
  add_all [] gpu = gpu
  add_all (r ∷ rs) gpu = add_all rs (add_row parse_float round_1 to_bytes r gpu)

  add_rows-rows_of :
      (ls : List (List ℕ)) (gpu : GpuStats)
      → add_rows parse_float round_1 to_bytes ls gpu ≡ add_all (rows_of ls) gpu
  unfolding add_rows
  add_rows-rows_of [] gpu = refl
  add_rows-rows_of (line ∷ rest) gpu =
      elim (Option-cases
        (read_row parse_float round_1 to_bytes (split_by (λ c. eqb c b',') line))) [
          | inl e ↦ rw e (add_rows-rows_of rest gpu)
          | inr (r, e) ↦ rw e (add_rows-rows_of rest (add_row parse_float round_1 to_bytes r gpu))
        ]

  pub add_all-count :
      (rs : List Row) (gpu : GpuStats) → (add_all rs gpu).count ≡ gpu.count + length rs
  unfolding add_row
  add_all-count [] gpu = omega arith
  add_all-count (r ∷ rs) gpu =
      omega (arith, add_all-count rs (add_row parse_float round_1 to_bytes r gpu))

  add_bytes_sum :
      (o : Option ℕ) (n rest : ℕ)
      → (add_bytes o n + rest) % 2 ^ 64 ≡ (n + (from_option 0 o + rest)) % 2 ^ 64
  add_bytes_sum none n rest = omega arith
  add_bytes_sum (some k) n rest = omega arith

  add_bytes_small : (o : Option ℕ) (n : ℕ) → n < 2 ^ 64 → add_bytes o n < 2 ^ 64
  add_bytes_small none n h = h
  add_bytes_small (some k) n h = omega arith

  add_all-used :
      (rs : List Row) (gpu : GpuStats)
      → (add_all rs gpu).memory_used_bytes % 2 ^ 64
        ≡ (gpu.memory_used_bytes + sum_of (λ r. r.used) rs) % 2 ^ 64
  unfolding add_row
  add_all-used [] gpu = omega arith
  add_all-used (r ∷ rs) gpu =
      add_all-used rs (add_row parse_float round_1 to_bytes r gpu)
      ∙ add_bytes_sum r.used gpu.memory_used_bytes (sum_of (λ r. r.used) rs)

  add_all-total :
      (rs : List Row) (gpu : GpuStats)
      → (add_all rs gpu).memory_total_bytes % 2 ^ 64
        ≡ (gpu.memory_total_bytes + sum_of (λ r. r.total) rs) % 2 ^ 64
  unfolding add_row
  add_all-total [] gpu = omega arith
  add_all-total (r ∷ rs) gpu =
      add_all-total rs (add_row parse_float round_1 to_bytes r gpu)
      ∙ add_bytes_sum r.total gpu.memory_total_bytes (sum_of (λ r. r.total) rs)

  add_all-name : (rs : List Row) (gpu : GpuStats) → 0 < gpu.count → (add_all rs gpu).name ≡ gpu.name
  unfolding add_row
  add_all-name [] gpu h = refl
  add_all-name (r ∷ rs) gpu h =
      add_all-name rs (add_row parse_float round_1 to_bytes r gpu) (omega arith) ∙ ground arith

  add_all-small :
      (rs : List Row) (gpu : GpuStats)
      → gpu.memory_used_bytes < 2 ^ 64
      → gpu.memory_total_bytes < 2 ^ 64
      → ((add_all rs gpu).memory_used_bytes < 2 ^ 64)
        × ((add_all rs gpu).memory_total_bytes < 2 ^ 64)
  unfolding add_row
  add_all-small [] gpu u t = (u, t)
  add_all-small (r ∷ rs) gpu u t =
      add_all-small rs (add_row parse_float round_1 to_bytes r gpu)
        (add_bytes_small r.used gpu.memory_used_bytes u)
        (add_bytes_small r.total gpu.memory_total_bytes t)

  first_name : (r : Row) (rs : List Row) → (add_all (r ∷ rs) no_gpu).name ≡ r.name
  unfolding add_row
  first_name r rs = add_all-name rs (add_row parse_float round_1 to_bytes r no_gpu) (omega arith)

  module _ (rounds : (v : Float64) → IsPercent v → IsPercent (round_1 v)) where
    add_all-IsPercent :
        (rs : List Row) (gpu : GpuStats)
        → IsPercent gpu.usage_percent
        → IsPercent (add_all rs gpu).usage_percent
    unfolding add_row
    add_all-IsPercent [] gpu h = h
    add_all-IsPercent (r ∷ rs) gpu h =
        add_all-IsPercent rs (add_row parse_float round_1 to_bytes r gpu)
          (raise_usage-IsPercent round_1 rounds r.usage gpu.usage_percent h)

    pub add_all-Sums : (rs : List Row) → Sums rs (add_all rs no_gpu)
    add_all-Sums rs =
        let small = add_all-small rs no_gpu (omega arith) (omega arith) in
        record {
          counted = omega (arith, add_all-count rs no_gpu);
          used = omega (arith, add_all-used rs no_gpu, small.0);
          total = omega (arith, add_all-total rs no_gpu, small.1);
          named =
              λ r tail e. subst (λ l. (add_all l no_gpu).name ≡ r.name) (sym e) (first_name r tail);
          percent = add_all-IsPercent rs no_gpu zero-IsPercent;
        }

    add_rows-Sums :
        (ls : List (List ℕ)) → Sums (rows_of ls) (add_rows parse_float round_1 to_bytes ls no_gpu)
    add_rows-Sums ls =
        subst (Sums (rows_of ls)) (sym (add_rows-rows_of ls no_gpu)) (add_all-Sums (rows_of ls))

    -- parseNVIDIA gives nothing exactly if no line is of use. Otherwise it counts the lines that are,
    -- adds up the memory that could be read modulo 2 ^ 64, has the first line's name, and a
    -- percentage between 0 and 100, if rounding keeps a percentage one.
    pub parse_nvidia_lem :
        (out : List ℕ)
        → ((parse_nvidia parse_float round_1 to_bytes out ≡ none)
            × (length (rows_of (lines out)) ≡ 0))
          ⊎ ((gpu : GpuStats) × (parse_nvidia parse_float round_1 to_bytes out ≡ some gpu)
              × (0 < gpu.count)
              × Sums (rows_of (lines out)) gpu)
    unfolding parse_nvidia
    parse_nvidia_lem out =
        let gpu = add_rows parse_float round_1 to_bytes (lines out) no_gpu in
        let sums = add_rows-Sums (lines out) in
        elim (Bool-cases (eqb gpu.count 0)) [
          | inl none_read ↦ inl (ground arith, ground (arith, none_read, sums.counted))
          | inr some_read ↦ inr (gpu, ground arith, ground (arith, some_read), sums)
        ]
