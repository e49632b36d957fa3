-- ===== src/Metrics/Cpu.antt =====
-- metrics/sampler_linux.go: parseProcStat and cpuSampler. The percentage is a float64 division: `no_load` is 0 and
-- `ratio a b` is float64(a) / float64(b) * 100. The counters are uint64.
use llm_server_manager.Base.{
  Bool, true, ◌||◌, not, Option, none, some, List, [], ◌∷◌, ℕ, ◌+◌, ◌-◌, ◌%◌, ◌^◌, ltb, leb, eqb,
  if◌then◌else◌, find_first, codes,
}
use llm_server_manager.Metrics.Words.{lines, fields, has_prefix, parse_uint}

-- The loop over the fields of the line, from index `i`.
unfoldable pub add_fields : ℕ → List (List ℕ) → ℕ → ℕ → ℕ × ℕ
add_fields i [] total idle = (total, idle)
add_fields i (f ∷ fs) total idle =
    add_fields (i + 1) fs
      (if leb 8 i
        then total
        else elim (parse_uint f) [ none ↦ total | some v ↦ (total + v) % 2 ^ 64 ])
      (if eqb i 3 || eqb i 4
        then elim (parse_uint f) [ none ↦ idle | some v ↦ (idle + v) % 2 ^ 64 ]
        else idle)

-- The fields behind the first one; without any the reading is not usable.
unfoldable pub totals : List (List ℕ) → Option (ℕ × ℕ)
unfolding add_fields
totals [] = none
totals (name ∷ []) = none
totals (name ∷ f ∷ fs) = some (add_fields 0 (f ∷ fs) 0 0)

unfoldable pub totals_of_line : Option (List ℕ) → Option (ℕ × ℕ)
unfolding totals
totals_of_line none = none
totals_of_line (some line) = totals (fields line)

-- parseProcStat: the total and the idle time of the first line for all processors.
unfoldable pub parse_proc_stat : List ℕ → Option (ℕ × ℕ)
unfolding totals_of_line
parse_proc_stat content = totals_of_line (find_first (has_prefix (codes "cpu ")) (lines content))

-- A read of /proc/stat, which may fail.
abbrev pub read_stat : Option (List ℕ) → Option (ℕ × ℕ)
read_stat none = none
read_stat (some content) = parse_proc_stat content

-- A difference of uint64 values.
abbrev pub sub_64 : ℕ → ℕ → ℕ
sub_64 a b = (a + 2 ^ 64 - b) % 2 ^ 64

-- Two minutes, in nanoseconds.
abbrev pub stale_after : ℕ
stale_after = 120000000000

pub record Sampler (F : Type 0) : Type 0 where
  pub prev_total : ℕ
  pub prev_idle : ℕ
  pub primed : Bool
  pub last_at : ℕ
  pub last_usage : F

module _ {F : Type 0} (no_load : F) (ratio : ℕ → ℕ → F) where
  -- The rate since the previous sample.
  unfoldable pub rate : ℕ → ℕ → ℕ → Sampler F → Sampler F × F
  rate total idle now s =
      let delta_total = sub_64 total s.prev_total in
      let delta_idle = sub_64 idle s.prev_idle in
      let s' = record s { prev_total = total; prev_idle = idle; last_at = now } in
      let usage = ratio (sub_64 delta_total delta_idle) delta_total in
      if eqb delta_total 0 then (s', s.last_usage) else (record s' { last_usage = usage }, usage)

  -- freshSample, where the second read comes to an end at `later`.
  unfoldable pub fresh_sample : Option (ℕ × ℕ) → ℕ → Sampler F → Sampler F × F
  unfolding rate
  fresh_sample none later s = (record s { last_at = later }, no_load)
  fresh_sample (some (total, idle)) later s =
      if ltb total s.prev_total || ltb idle s.prev_idle
      then (record s { last_at = later }, no_load)
      else rate total idle later s

  -- Usage, on the reading at `now`, and on a second one that it may take.
  unfoldable pub usage : Option (ℕ × ℕ) → ℕ → Option (ℕ × ℕ) → ℕ → Sampler F → Sampler F × F
  unfolding rate fresh_sample
  usage none now second later s = (s, no_load)
  usage (some (total, idle)) now second later s =
      if not s.primed || ltb total s.prev_total || ltb idle s.prev_idle
      then (
        record s { prev_total = total; prev_idle = idle; primed = true; last_at = now },
        no_load,
      )
      else if ltb stale_after (now - s.last_at)
      then fresh_sample second later (record s { prev_total = total; prev_idle = idle })
      else rate total idle now s
