-- ===== src/Metrics/Darwin.antt =====
-- metrics/sampler_darwin.go: the sampler of the processor, parseTopCPU and readMemory. What the system's tools print
-- is an argument, or nothing where they fail; the arithmetic of float64 is a parameter.
use llm_server_manager.Base.{
  Bool, false, ◌&&◌, not, Option, none, some, List, [], ◌∷◌, ℕ, ◌+◌, ◌-◌, ◌*◌, ◌%◌, ◌^◌, eqb, ltb,
  codes, ◌++◌, true, is_digit, is_some, if◌then◌else◌, Float64, from_option,
}
use llm_server_manager.Metrics.Words.{lines, split_by, parse_uint, is_empty}
use llm_server_manager.Metrics.Gpu.{trim, clamp_percent}
use llm_server_manager.Metrics.Rocm.{trim_percent}
use llm_server_manager.Metrics.Memory.{MemoryStats, value_of}
use llm_server_manager.Metrics.Ioreg.{behind, take_front}

-- strings.TrimSuffix.
unfoldable pub trim_suffix : List ℕ → List ℕ → List ℕ
unfolding behind
trim_suffix end [] = []
trim_suffix end (c ∷ s) = elim (behind end (c ∷ s)) [ some [] ↦ [] | _ ↦ c ∷ trim_suffix end s ]

-- strings.HasSuffix.
unfoldable pub has_suffix : List ℕ → List ℕ → Bool
unfolding behind
has_suffix end [] = is_empty end
has_suffix end (c ∷ s) = elim (behind end (c ∷ s)) [ some [] ↦ true | _ ↦ has_suffix end s ]

-- strings.Cut at a colon: what stands before it and behind it.
unfoldable pub cut_colon : List ℕ → Option (List ℕ × List ℕ)
cut_colon [] = none
cut_colon (c ∷ s) =
    let rest = cut_colon s in
    if eqb c b':'
    then some ([], s)
    else elim rest [ none ↦ none | some (key, value) ↦ some (c ∷ key, value) ]

module _ (parse_float : List ℕ → Option Float64) (from_hundred : Float64 → Float64) where
  -- The loop over the parts of a line; `from_hundred` takes a number from 100.
  unfoldable pub idle_part : List (List ℕ) → Option Float64
  unfolding has_suffix trim_suffix trim_percent trim clamp_percent
  idle_part [] = none
  idle_part (p ∷ ps) =
      if not (has_suffix (codes "idle") (trim p))
      then idle_part ps
      else elim (parse_float (trim (trim_percent (trim (trim_suffix (codes "idle") (trim p)))))) [
        | none ↦ idle_part ps
        | some idle ↦ some (clamp_percent (from_hundred idle))
      ]

  -- The loop over the lines.
  unfoldable pub idle_line : List (List ℕ) → Option Float64
  unfolding idle_part behind
  idle_line [] = none
  idle_line (line ∷ rest) = elim (behind (codes "CPU usage:") (trim line)) [
    | none ↦ idle_line rest
    | some parts ↦ elim (idle_part (split_by (λ c. eqb c b',') parts)) [
      | none ↦ idle_line rest
      | some usage ↦ some usage
    ]
  ]

  -- parseTopCPU.
  unfoldable pub parse_top_cpu : List ℕ → Option Float64
  unfolding idle_line
  parse_top_cpu out = idle_line (lines out)

  -- The output of top, which may fail.
  abbrev pub read_top : Option (List ℕ) → Option Float64
  read_top none = none
  read_top (some out) = parse_top_cpu out

-- cpuSampler: `at` is none for the zero time.
pub record TopSampler : Type 0 where
  pub last : Float64
  pub at : Option ℕ

-- Two seconds, in nanoseconds.
abbrev pub top_ttl : ℕ
top_ttl = 2000000000

abbrev is_young : Option ℕ → ℕ → Bool
is_young none now = false
is_young (some at) now = ltb (now - at) top_ttl

-- Usage, at `now`; what top gives is stored at `later`.
unfoldable pub top_usage : Option Float64 → ℕ → ℕ → TopSampler → TopSampler × Float64
top_usage read now later s = if is_young s.at now then (s, s.last) else elim read [
  | none ↦ (s, s.last)
  | some usage ↦ (record { last = usage; at = some later }, usage)
]

-- The lines of vm_stat, as a map whose newest entry comes first.
unfoldable pub add_pages : List (List ℕ) → List (List ℕ × ℕ) → List (List ℕ × ℕ)
unfolding cut_colon trim trim_suffix
add_pages [] pages = pages
add_pages (line ∷ rest) pages = add_pages rest (elim (cut_colon line) [
  | none ↦ pages
  | some (key, value) ↦ elim (parse_uint (trim_suffix (b'.' ∷ []) (trim value))) [
    | none ↦ pages
    | some count ↦ (trim key, count) ∷ pages
  ]
])

-- The first match of `page size of (\d+) bytes`.
unfoldable pub find_page_size : List ℕ → Option (List ℕ)
unfolding behind take_front
find_page_size [] = none
find_page_size (c ∷ s) = elim (behind (codes "page size of ") (c ∷ s)) [
  | none ↦ find_page_size s
  | some rest ↦
      let digits = take_front is_digit rest in
      if not (is_empty digits) && is_some (behind (digits ++ codes " bytes") rest)
      then some digits
      else find_page_size s
]

unfoldable pub page_size : List ℕ → ℕ
unfolding find_page_size
page_size out = elim (find_page_size out) [
  | none ↦ 4096
  | some digits ↦ from_option 4096 (parse_uint digits)
]

abbrev pub capped : ℕ → ℕ → ℕ
capped total n = if ltb total n then total else n

module _ {F : Type 0} (no_load : F) (ratio : ℕ → ℕ → F) where
  -- The part of readMemory behind the total.
  unfoldable pub used_of : ℕ → List ℕ → MemoryStats F
  unfolding page_size add_pages
  used_of total out =
      let pages = add_pages (lines out) [] in
      let active =
        (value_of (codes "Pages active") pages
          + value_of (codes "Pages wired down") pages
          + value_of (codes "Pages occupied by compressor") pages)
        % 2 ^ 64 in
      let in_use = (active * page_size out) % 2 ^ 64 in
      let used = capped total in_use in
      record { used_bytes = used; total_bytes = total; usage_percent = ratio used total }

  abbrev nothing : ℕ → MemoryStats F
  nothing total = record { used_bytes = 0; total_bytes = total; usage_percent = no_load }

  -- readMemory, from the outputs of sysctl and vm_stat.
  unfoldable pub read_memory_darwin : Option (List ℕ) → Option (List ℕ) → MemoryStats F
  unfolding used_of trim
  read_memory_darwin none vm_stat = nothing 0
  read_memory_darwin (some sysctl) vm_stat = elim (parse_uint (trim sysctl)) [
    | none ↦ nothing 0
    | some total ↦
        if eqb total 0
        then nothing 0
        else elim vm_stat [ none ↦ nothing total | some out ↦ used_of total out ]
  ]
