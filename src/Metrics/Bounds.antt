-- ===== src/Metrics/Bounds.antt =====
-- metrics/metrics.go: what every snapshot keeps to, whatever the system's files and tools say.
use llm_server_manager.Base.{
  ◌≡◌, refl, sym, subst, ◌⊎◌, inl, inr, Bool, Option, none, some, List, [], ◌∷◌, ℕ, ◌≤◌, ◌<◌, ◌^◌,
  codes, ◌&&◌, eqb, if_cases, option_cases, Float64, float_of, is_nan, ltb_float, false, length,
  arith,
}
use mathlib.Core.List.Permᴰ
use llm_server_manager.Metrics.Words.{parse_uint}
use llm_server_manager.Metrics.Memory.{MemoryStats, read_memory, read_memory-IsMemory}
use llm_server_manager.Metrics.Gpu.{
  trim, clamp_percent, GpuStats, parse_nvidia, GpuCache, gpu_snapshot, is_recent,
}
use llm_server_manager.Metrics.GpuRows.{
  IsPercent, zero-IsPercent, clamp_percent-IsPercent, raise_usage-IsPercent, parse_nvidia_lem,
}
use llm_server_manager.Metrics.Round.{FloatOps, round1}
use llm_server_manager.Metrics.Rocm.{parse_rocm}
use llm_server_manager.Metrics.RocmOrder.{parse_rocm-order}
use llm_server_manager.Metrics.Ioreg.{
  AppleGpu, raise_all, apple_gpu, parse_ioreg, utilizations, find_numbers,
}
use llm_server_manager.Metrics.Darwin.{capped, used_of, read_memory_darwin}
use llm_server_manager.Metrics.Collect.{
  Tools, FoundGpu, Arith, find_nvidia_smi, gpu_from_nvidia, gpu_from_rocm, gpu_from_ioreg,
  collect_gpu, found, found_apple, Host, make_snapshot, three_loads, nvidia_smi, rocm_smi,
}

-- What is said of a graphics card is in range, where there is one.
abbrev pub InRange : Option FoundGpu → Type 0
InRange none = Unit
InRange (some g) = IsPercent g.stats.usage_percent

-- The memory in use is at most the whole, which fits 64 bits.
abbrev pub Fits : MemoryStats Float64 → Type 0
Fits m = (m.used_bytes ≤ m.total_bytes) × (m.total_bytes < 2 ^ 64)

module _ (a : Arith) (rounds : (v : Float64) → IsPercent v → IsPercent (round1 a.floats v)) where
  raise_all-IsPercent :
      (ms : List (List ℕ)) (u : Float64)
      → IsPercent u
      → IsPercent (raise_all a.parse_float (round1 a.floats) ms u)
  unfolding raise_all
  raise_all-IsPercent [] u h = h
  raise_all-IsPercent (m ∷ ms) u h =
      raise_all-IsPercent ms _
        (raise_usage-IsPercent (round1 a.floats) rounds (a.parse_float m) u h)

  found-InRange :
      (s : _) (o : Option GpuStats)
      → ((g : GpuStats) → o ≡ some g → IsPercent g.usage_percent)
      → InRange (found s o)
  found-InRange s none h = tt
  found-InRange s (some g) h = h g refl

  nvidia-IsPercent :
      (out : List ℕ) (g : GpuStats)
      → parse_nvidia a.parse_float (round1 a.floats) a.mib_to_bytes out ≡ some g
      → IsPercent g.usage_percent
  nvidia-IsPercent out g e =
      elim (parse_nvidia_lem a.parse_float (round1 a.floats) a.mib_to_bytes rounds out) [
        | inl (q, z) ↦ let no : ◌≡◌ {A = Option GpuStats} none (some g) = cc in cc
        | inr (h, q, some_read, sums) ↦
            let same : h ≡ g = cc in
            subst (λ (x : GpuStats). IsPercent x.usage_percent) same sums.percent
      ]

  ioreg-InRange :
      (out : List ℕ) → InRange (found_apple (parse_ioreg a.parse_float (round1 a.floats) out))
  unfolding parse_ioreg apple_gpu
  ioreg-InRange out =
      let uses = utilizations out in
      let memories = find_numbers (codes "\"In use system memory\"") 0 out in
      if_cases (λ (o : Option AppleGpu). InRange (found_apple o))
        (eqb (length uses) 0 && eqb (length memories) 0) {x = none}
        {y = some (apple_gpu a.parse_float (round1 a.floats) out uses memories)} (λ _. tt)
        (λ _. raise_all-IsPercent uses (float_of 0) zero-IsPercent)

  from_nvidia : (tools : Tools) → InRange (gpu_from_nvidia a tools)
  unfolding gpu_from_nvidia
  from_nvidia tools =
      option_cases InRange (find_nvidia_smi tools.look_path) (λ _. tt)
        λ bin _.
          option_cases InRange (tools.run_nvidia bin) (λ _. tt)
            λ out _.
              found-InRange nvidia_smi
                (parse_nvidia a.parse_float (round1 a.floats) a.mib_to_bytes out)
                (nvidia-IsPercent out)

  from_rocm : (tools : Tools) → InRange (gpu_from_rocm a tools)
  unfolding gpu_from_rocm
  from_rocm tools =
      option_cases InRange tools.rocm (λ _. tt)
        λ cards _.
          found-InRange rocm_smi
            (parse_rocm a.lower a.parse_float (round1 a.floats) a.truncate cards)
            λ g e.
              (parse_rocm-order a.lower a.parse_float (round1 a.floats) a.truncate rounds cards
                cards (Permᴰ.refl cards) g e).0

  from_ioreg : (tools : Tools) → InRange (gpu_from_ioreg a tools)
  unfolding gpu_from_ioreg
  from_ioreg tools = option_cases InRange tools.ioreg (λ _. tt) (λ out _. ioreg-InRange out)

  pub collect_gpu-InRange :
      (tools : Tools) (is_darwin : Bool) → InRange (collect_gpu a tools is_darwin)
  unfolding collect_gpu
  collect_gpu-InRange tools is_darwin =
      option_cases InRange (gpu_from_nvidia a tools)
        (λ _.
          option_cases InRange (gpu_from_rocm a tools)
            (λ _. if_cases InRange is_darwin (λ _. from_ioreg tools) (λ _. tt))
            (λ g e. subst InRange e (from_rocm tools)))
        (λ g e. subst InRange e (from_nvidia tools))

-- The memory that is read on Linux or on macOS.
abbrev pub Reading : (ℕ → ℕ → Float64) → MemoryStats Float64 → Type 0
Reading ratio m =
    ((content : Option (List ℕ)) × (m ≡ read_memory (float_of 0) ratio content))
    ⊎ ((sysctl : Option (List ℕ)) × (vm_stat : Option (List ℕ)) × (m
          ≡ read_memory_darwin (float_of 0) ratio sysctl vm_stat))

parse_uint_small : (s : List ℕ) (n : ℕ) → parse_uint s ≡ some n → n < 2 ^ 64
unfolding parse_uint
parse_uint_small s n e = ground (arith, e)

capped_le : (total n : ℕ) → capped total n ≤ total
capped_le total n = ground arith

used_small :
    (ratio : ℕ → ℕ → Float64) (total : ℕ) (out : List ℕ)
    → (used_of (float_of 0) ratio total out).used_bytes ≤ total
unfolding used_of
used_small ratio total out = capped_le total _

darwin-Fits :
    (ratio : ℕ → ℕ → Float64) (sysctl vm_stat : Option (List ℕ))
    → Fits (read_memory_darwin (float_of 0) ratio sysctl vm_stat)
unfolding read_memory_darwin used_of
darwin-Fits ratio none vm_stat = (omega arith, omega arith)
darwin-Fits ratio (some sysctl) vm_stat =
    option_cases Fits (parse_uint (trim sysctl)) (λ _. (omega arith, omega arith))
      λ total e.
        let small = parse_uint_small (trim sysctl) total e in
        if_cases Fits (eqb total 0) (λ _. (omega arith, omega arith))
          λ _.
            option_cases Fits vm_stat (λ _. (omega arith, small))
              (λ out _. (used_small ratio total out, small))

Reading-Fits : (ratio : ℕ → ℕ → Float64) (m : MemoryStats Float64) → Reading ratio m → Fits m
Reading-Fits ratio m (inl (content, e)) =
    let h = read_memory-IsMemory (float_of 0) ratio content in subst Fits (sym e) (h.0, h.1)
Reading-Fits ratio m (inr (sysctl, vm_stat, e)) =
    subst Fits (sym e) (darwin-Fits ratio sysctl vm_stat)

three_loads-length :
    (load : Option (List Float64)) (vs : List Float64) → three_loads load ≡ some vs → length vs ≡ 3
three_loads-length none vs e = cc
three_loads-length (some us) vs e = ground (arith, e)

-- A number from `low` to `high`.
abbrev pub Within : ℕ → ℕ → Float64 → Type 0
Within low high x =
    (is_nan x ≡ false)
    × (ltb_float x (float_of low) ≡ false)
    × (ltb_float (float_of high) x ≡ false)

-- What is used of the arithmetic of float64 and of math.Round: all three are monotone and exact at the
-- bounds.
pub record Monotone (ops : FloatOps) : Type 0 where
  pub times_ten : (v : Float64) → Within 0 100 v → Within 0 1000 (ops.times v (float_of 10))
  pub rounded : (v : Float64) → Within 0 1000 v → Within 0 1000 (ops.round v)
  pub by_ten : (v : Float64) → Within 0 1000 v → Within 0 100 (ops.divide v (float_of 10))

round1-IsPercent :
    (ops : FloatOps) → Monotone ops → (v : Float64) → IsPercent v → IsPercent (round1 ops v)
unfolding round1
round1-IsPercent ops m v h = m.by_ten _ (m.rounded _ (m.times_ten v h))

-- A call of gpuSnapshot: what the tools give, and when it begins and ends.
pub record Poll : Type 0 where
  pub tools : Tools
  pub now : ℕ
  pub later : ℕ

-- The cache of a new collector after some calls.
abbrev pub polled : Arith → Bool → List Poll → GpuCache (Option FoundGpu)
polled a is_darwin [] = record { gpu = none; at = none }
polled a is_darwin (p ∷ ps) =
    (gpu_snapshot (collect_gpu a p.tools is_darwin) p.now p.later (polled a is_darwin ps)).0

module _ (a : Arith) (m : Monotone a.floats) (is_darwin : Bool) where
  collected : (tools : Tools) → InRange (collect_gpu a tools is_darwin)
  collected tools = collect_gpu-InRange a (round1-IsPercent a.floats m) tools is_darwin

  gpu_snapshot-InRange :
      (tools : Tools) (now later : ℕ) (cache : GpuCache (Option FoundGpu))
      → InRange cache.gpu
      → let (cache', gpu) = gpu_snapshot (collect_gpu a tools is_darwin) now later cache in
        InRange cache'.gpu × InRange gpu
  unfolding gpu_snapshot
  gpu_snapshot-InRange tools now later cache ok =
      if_cases (λ (p : GpuCache (Option FoundGpu) × Option FoundGpu). InRange p.0.gpu × InRange p.1)
        (is_recent cache.at now) (λ _. (ok, ok)) (λ _. (collected tools, collected tools))

  polled-InRange : (ps : List Poll) → InRange (polled a is_darwin ps).gpu
  polled-InRange [] = tt
  polled-InRange (p ∷ ps) =
      (gpu_snapshot-InRange p.tools p.now p.later (polled a is_darwin ps) (polled-InRange ps)).0

-- A snapshot of a collector that has been polled any number of times, whatever the files and the vendors'
-- tools gave each time, on Linux and on macOS, where the arithmetic is monotone: the memory in use
-- is at most the whole, every percentage is one, that of the graphics card too, be it read anew or
-- from the cache, and the loads are three if there are any. The memory is what readMemory gives.
pub make_snapshot-InRange :
    (a : Arith)
    → Monotone a.floats
    → (ratio : ℕ → ℕ → Float64) (is_darwin : Bool) (past : List Poll) (tools : Tools) (host : Host)
      (cpu_usage : Float64) (memory : MemoryStats Float64) (load : Option (List Float64))
      (now later : ℕ)
    → Reading ratio memory
    → let gpu =
        (gpu_snapshot (collect_gpu a tools is_darwin) now later (polled a is_darwin past)).1 in
      let s = make_snapshot a.floats host cpu_usage memory load gpu later in
      IsPercent s.cpu_usage
      × IsPercent s.memory.usage_percent
      × Fits s.memory
      × InRange s.gpu
      × ((vs : List Float64) → s.load ≡ some vs → length vs ≡ 3)
unfolding make_snapshot
make_snapshot-InRange a m ratio is_darwin past tools host cpu_usage memory load now later read =
    let rounds = round1-IsPercent a.floats m in
    (
      rounds (clamp_percent cpu_usage) (clamp_percent-IsPercent cpu_usage),
      rounds (clamp_percent memory.usage_percent) (clamp_percent-IsPercent memory.usage_percent),
      Reading-Fits ratio memory read,
      (gpu_snapshot-InRange a m is_darwin tools now later (polled a is_darwin past)
          (polled-InRange a m is_darwin past)).1,
      three_loads-length load,
    )
