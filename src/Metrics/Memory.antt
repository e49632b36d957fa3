-- ===== src/Metrics/Memory.antt =====
-- metrics/sampler_linux.go: readMemory. The percentage is a float64 division, as in Cpu.
use llm_server_manager.Base.{
  ◌≡◌, refl, ◌⊎◌, inl, inr, Bool, true, false, ◌&&◌, Option, none, some, List, [], ◌∷◌, ℕ, ◌+◌, ◌-◌,
  ◌*◌, ◌%◌, ◌^◌, ◌≤◌, ◌<◌, eqb, ltb, if◌then◌else◌, if_cases, codes, arith,
}
use llm_server_manager.Metrics.Words.{lines, fields, parse_uint}

abbrev pub same_codes : List ℕ → List ℕ → Bool
same_codes [] [] = true
same_codes (c ∷ s) (d ∷ t) = eqb c d && same_codes s t
same_codes _ _ = false

-- strings.TrimSuffix of ":".
abbrev pub trim_colon : List ℕ → List ℕ
trim_colon [] = []
trim_colon (c ∷ []) = if eqb c b':' then [] else c ∷ []
trim_colon (c ∷ d ∷ s) = c ∷ trim_colon (d ∷ s)

-- The value of a key in a list that has the newest entry first; 0 where there is none.
abbrev pub value_of : List ℕ → List (List ℕ × ℕ) → ℕ
value_of key [] = 0
value_of key ((k, v) ∷ values) = if same_codes k key then v else value_of key values

-- One line of /proc/meminfo, split into fields.
unfoldable pub add_value : List (List ℕ) → List (List ℕ × ℕ) → List (List ℕ × ℕ)
add_value (key ∷ text ∷ fs) values = elim (parse_uint text) [
  | none ↦ values
  | some v ↦ (trim_colon key, v) ∷ values
]
add_value _ values = values

unfoldable pub add_lines : List (List ℕ) → List (List ℕ × ℕ) → List (List ℕ × ℕ)
unfolding add_value
add_lines [] values = values
add_lines (line ∷ rest) values = add_lines rest (add_value (fields line) values)

-- A number of kB in bytes, as uint64.
abbrev pub bytes : ℕ → ℕ
bytes kb = (kb * 1024) % 2 ^ 64

pub record MemoryStats (F : Type 0) : Type 0 where
  pub used_bytes : ℕ
  pub total_bytes : ℕ
  pub usage_percent : F

-- What the kernel calls available, or what it would be before there was that entry.
unfoldable pub available_bytes : List (List ℕ × ℕ) → ℕ
available_bytes values =
    if eqb (bytes (value_of (codes "MemAvailable") values)) 0
    then bytes (
        (value_of (codes "MemFree") values
          + value_of (codes "Buffers") values
          + value_of (codes "Cached") values)
        % 2 ^ 64)
    else bytes (value_of (codes "MemAvailable") values)

module _ {F : Type 0} (no_load : F) (ratio : ℕ → ℕ → F) where
  unfoldable pub stats_of : ℕ → ℕ → MemoryStats F
  stats_of total available =
      if eqb total 0
      then record { used_bytes = 0; total_bytes = 0; usage_percent = no_load }
      else let used = total - (if ltb total available then total else available) in
        record { used_bytes = used; total_bytes = total; usage_percent = ratio used total }

  -- readMemory, on a read that may fail.
  unfoldable pub read_memory : Option (List ℕ) → MemoryStats F
  unfolding stats_of available_bytes add_lines
  read_memory none = record { used_bytes = 0; total_bytes = 0; usage_percent = no_load }
  read_memory (some content) =
      let values = add_lines (lines content) [] in
      stats_of (bytes (value_of (codes "MemTotal") values)) (available_bytes values)

  abbrev pub IsMemory : MemoryStats F → Type 0
  IsMemory m =
      (m.used_bytes ≤ m.total_bytes)
      × (m.total_bytes < 2 ^ 64)
      × ((m.usage_percent ≡ no_load) × (m.total_bytes ≡ 0)
          ⊎ (m.usage_percent ≡ ratio m.used_bytes m.total_bytes) × (0 < m.total_bytes))

  stats_of-IsMemory : (total available : ℕ) → total < 2 ^ 64 → IsMemory (stats_of total available)
  unfolding stats_of
  stats_of-IsMemory total available small =
      if_cases IsMemory (eqb total 0) (λ _. (omega arith, omega arith, inl (refl, refl)))
        (λ some_memory. (ground arith, small, inr (refl, ground (arith, some_memory))))

  -- Whatever /proc/meminfo holds, the memory in use is at most the whole, which fits 64 bits, and the
  -- percentage is that of the two, or 0 where the total is not known.
  pub read_memory-IsMemory : (content : Option (List ℕ)) → IsMemory (read_memory content)
  unfolding read_memory
  read_memory-IsMemory none = (omega arith, omega arith, inl (refl, refl))
  read_memory-IsMemory (some content) =
      let values = add_lines (lines content) [] in
      stats_of-IsMemory (bytes (value_of (codes "MemTotal") values)) (available_bytes values)
        (omega arith)
