-- ===== src/Metrics/Ioreg.antt =====
-- metrics/gpu.go: parseIOReg. The patterns are matched as regexp does: the leftmost match, then the next one behind
-- it. The reading of a float64 and its rounding are parameters.
use llm_server_manager.Base.{
  Bool, ◌&&◌, ◌||◌, not, Option, none, some, List, [], ◌∷◌, ℕ, zero, suc, ◌+◌, ◌-◌, ◌^◌, eqb, ltb,
  if◌then◌else◌, is_digit, codes, Float64, float_of, from_option, length, max,
}
use llm_server_manager.Metrics.Words.{is_empty, parse_uint}
use llm_server_manager.Metrics.Gpu.{GpuStats, add_bytes, raise_usage}

-- \s of regexp.
abbrev is_blank : ℕ → Bool
is_blank c = eqb c b'\t' || eqb c b'\n' || eqb c 12 || eqb c b'\r' || eqb c b' '

-- A literal text in front, and what is behind it.
unfoldable pub behind : List ℕ → List ℕ → Option (List ℕ)
behind [] s = some s
behind (p ∷ ps) [] = none
behind (p ∷ ps) (c ∷ s) = if eqb p c then behind ps s else none

unfoldable pub skip_blanks : List ℕ → List ℕ
skip_blanks [] = []
skip_blanks (c ∷ s) = if is_blank c then skip_blanks s else c ∷ s

-- The longest front of a class.
unfoldable pub take_front : (ℕ → Bool) → List ℕ → List ℕ
take_front p [] = []
take_front p (c ∷ s) = let rest = take_front p s in if p c then c ∷ rest else []

-- What stands behind \s*=\s*.
unfoldable pub behind_equals : List ℕ → Option (List ℕ)
unfolding skip_blanks behind
behind_equals s = elim (behind (b'=' ∷ []) (skip_blanks s)) [
  | none ↦ none
  | some rest ↦ some (skip_blanks rest)
]

-- What stands behind the key, an equals sign and blanks.
unfoldable pub value_at : List ℕ → List ℕ → Option (List ℕ)
unfolding behind_equals behind
value_at key s = elim (behind key s) [ none ↦ none | some rest ↦ behind_equals rest ]

-- A match of key\s*=\s*(\d+) at the front: the digits.
unfoldable pub number_at : List ℕ → List ℕ → Option (List ℕ)
unfolding value_at take_front
number_at key s = elim (value_at key s) [
  | none ↦ none
  | some rest ↦
      let digits = take_front is_digit rest in if is_empty digits then none else some digits
]

-- The length of a match that ends with these digits.
abbrev matched_length : List ℕ → List ℕ → List ℕ → ℕ
matched_length key s digits = elim (value_at key s) [
  | none ↦ 0
  | some rest ↦ length s - length rest + length digits
]

-- FindAllStringSubmatch, with the number of characters that belong to the last match.
unfoldable pub find_numbers : List ℕ → ℕ → List ℕ → List (List ℕ)
unfolding number_at
find_numbers key (suc within) (c ∷ s) = find_numbers key within s
find_numbers key within [] = []
find_numbers key zero (c ∷ s) = elim (number_at key (c ∷ s)) [
  | none ↦ find_numbers key zero s
  | some digits ↦ digits ∷ find_numbers key (matched_length key (c ∷ s) digits - 1) s
]

-- A match of key\s*=\s*"([^"]+)" at the front: what stands in quotes.
unfoldable pub quoted_at : List ℕ → List ℕ → Option (List ℕ)
unfolding value_at take_front behind
quoted_at key s = elim (value_at key s) [
  | none ↦ none
  | some rest ↦ elim (behind (b'"' ∷ []) rest) [
    | none ↦ none
    | some inside ↦
        let name = take_front (λ c. not (eqb c b'"')) inside in
        if is_empty name || eqb (length name) (length inside) then none else some name
  ]
]

-- FindStringSubmatch of such a pattern.
unfoldable pub find_quoted : List ℕ → List ℕ → Option (List ℕ)
unfolding quoted_at
find_quoted key [] = none
find_quoted key (c ∷ s) = elim (quoted_at key (c ∷ s)) [
  | none ↦ find_quoted key s
  | some name ↦ some name
]

-- The number of cores stands beside the other values.
pub record AppleGpu : Type 0 where
  pub stats : GpuStats
  pub core_count : ℕ

abbrev pub first_of : List (List ℕ) → Option (List ℕ)
first_of [] = none
first_of (x ∷ xs) = some x

-- Device Utilization, or Tiler Utilization where there is none.
unfoldable pub utilizations : List ℕ → List (List ℕ)
unfolding find_numbers
utilizations out =
    let uses = find_numbers (codes "\"Device Utilization %\"") 0 out in
    if eqb (length uses) 0 then find_numbers (codes "\"Tiler Utilization %\"") 0 out else uses

unfoldable pub add_memories : List (List ℕ) → ℕ → ℕ
add_memories [] n = n
add_memories (m ∷ ms) n = add_memories ms (add_bytes (parse_uint m) n)

-- strconv.Atoi on digits; none where the number does not fit 63 bits.
unfoldable pub atoi : List ℕ → Option ℕ
unfolding parse_uint
atoi s = elim (parse_uint s) [ none ↦ none | some n ↦ if ltb n (2 ^ 63) then some n else none ]

unfoldable pub core_count : Option (List ℕ) → ℕ
unfolding atoi
core_count none = 0
core_count (some digits) = from_option 0 (atoi digits)

module _ (parse_float : List ℕ → Option Float64) (round_1 : Float64 → Float64) where
  -- The loop over the utilizations, from the highest so far.
  unfoldable pub raise_all : List (List ℕ) → Float64 → Float64
  raise_all [] u = u
  raise_all (m ∷ ms) u = raise_all ms (raise_usage round_1 (parse_float m) u)

  -- The statistics, from the utilizations and the memories in use.
  unfoldable pub apple_gpu : List ℕ → List (List ℕ) → List (List ℕ) → AppleGpu
  unfolding raise_all add_memories core_count find_numbers find_quoted
  apple_gpu out uses memories = record {
    stats = record {
      usage_percent = raise_all uses (float_of 0);
      memory_used_bytes = add_memories memories 0;
      memory_total_bytes = 0;
      name = from_option [] (find_quoted (codes "\"model\"") out);
      count = max (length uses) 1;
    };
    core_count = core_count (first_of (find_numbers (codes "\"gpu-core-count\"") 0 out));
  }

  -- parseIOReg.
  unfoldable pub parse_ioreg : List ℕ → Option AppleGpu
  unfolding utilizations apple_gpu find_numbers
  parse_ioreg out =
      let uses = utilizations out in
      let memories = find_numbers (codes "\"In use system memory\"") 0 out in
      if eqb (length uses) 0 && eqb (length memories) 0
      then none
      else some (apple_gpu out uses memories)
