-- ===== src/Metrics/CpuText.antt =====
-- metrics/sampler_linux.go: parseProcStat reads back the counters that the kernel prints, and Usage is never
-- more than the whole.
use llm_server_manager.Base.{
  ◌≡◌, refl, ap, ◌∙◌, Bool, true, ◌||◌, false, some, List, [], ◌∷◌, ◌++◌, map, ℕ, ◌+◌, ◌%◌, ◌^◌,
  ◌<◌, eqb, leb, ltb, All, All-append, All-mono, codes, decimal, arith, if◌then◌else◌, find_first,
}
use llm_server_manager.Metrics.Words.{
  lines, lines-first, fields, fields-row, has_prefix, parse_uint, parse_uint-decimal, row,
  decimal_digits,
}
use llm_server_manager.Metrics.Cpu.{add_fields, totals, totals_of_line, parse_proc_stat}

-- The sums of the counters from index `i`, as numbers without a bound.
abbrev pub sum_total : ℕ → List ℕ → ℕ
sum_total i [] = 0
sum_total i (n ∷ ns) = (if ltb i 8 then n else 0) + sum_total (i + 1) ns

abbrev pub sum_idle : ℕ → List ℕ → ℕ
sum_idle i [] = 0
sum_idle i (n ∷ ns) = (if eqb i 3 || eqb i 4 then n else 0) + sum_idle (i + 1) ns

-- A counter is added, or left out.
added : Bool → ℕ → ℕ → ℕ
added taken v total = if taken then (total + v) % 2 ^ 64 else total

added_small : (taken : Bool) (v total : ℕ) → total < 2 ^ 64 → added taken v total < 2 ^ 64
unfolding added
added_small taken v total h = ground arith

added_total :
    (v total rest : ℕ)
    → (taken : Bool)
    → (added taken v total + rest) % 2 ^ 64 ≡ (total + ((if taken then v else 0) + rest)) % 2 ^ 64
unfolding added
added_total v total rest true = omega arith
added_total v total rest false = omega arith

pair_eq : (a b c d : ℕ) → a ≡ b → c ≡ d → ◌≡◌ {A = ℕ × ℕ} (a, c) (b, d)
pair_eq a b c d e f = ground (arith, e, f)

swapped : (i a b : ℕ) → (if leb 8 i then a else b) ≡ (if ltb i 8 then b else a)
swapped i a b = ground arith

add_fields_step :
    (i n : ℕ) (fs : List (List ℕ)) (f : List ℕ) (total idle : ℕ)
    → parse_uint f ≡ some n
    → add_fields i (f ∷ fs) total idle
      ≡ add_fields (i + 1) fs (added (ltb i 8) n total) (added (eqb i 3 || eqb i 4) n idle)
unfolding add_fields added
add_fields_step i n fs f total idle e = rw e (
    ap (λ t. add_fields (i + 1) fs t (if eqb i 3 || eqb i 4 then (idle + n) % 2 ^ 64 else idle))
      (swapped i total ((total + n) % 2 ^ 64)))

add_fields-decimal :
    (i : ℕ) (ns : List ℕ) (total idle : ℕ)
    → All (λ n. n < 2 ^ 64) ns
    → total < 2 ^ 64
    → idle < 2 ^ 64
    → add_fields i (map decimal ns) total idle
      ≡ ((total + sum_total i ns) % 2 ^ 64, (idle + sum_idle i ns) % 2 ^ 64)
unfolding add_fields
add_fields-decimal i [] total idle h t d =
    pair_eq total ((total + 0) % 2 ^ 64) idle ((idle + 0) % 2 ^ 64) (omega arith) (omega arith)
add_fields-decimal i (n ∷ ns) total idle h t d =
    add_fields_step i n (map decimal ns) (decimal n) total idle (parse_uint-decimal n h.0)
    ∙ add_fields-decimal (i + 1) ns (added (ltb i 8) n total) (added (eqb i 3 || eqb i 4) n idle)
        h.1 (added_small (ltb i 8) n total t) (added_small (eqb i 3 || eqb i 4) n idle d)
    ∙ pair_eq _ _ _ _ (added_total n total (sum_total (i + 1) ns) (ltb i 8))
        (added_total n idle (sum_idle (i + 1) ns) (eqb i 3 || eqb i 4))

-- The line for all processors, as the kernel prints it: the name, and each counter behind a space.
abbrev pub cpu_line : List ℕ → List ℕ
cpu_line ns = codes "cpu" ++ row ns

cpu_line-fields : (ns : List ℕ) → fields (cpu_line ns) ≡ codes "cpu" ∷ map decimal ns
cpu_line-fields ns = fields-row b'c' (codes "pu") ns (refl, (refl, (refl, tt)))

row_one_line : (ns : List ℕ) → All (λ c. eqb c b'\n' ≡ false) (row ns)
row_one_line [] = tt
row_one_line (n ∷ ns) = (
  refl,
  All-append (λ c. eqb c b'\n' ≡ false) (decimal n) (row ns)
      (All-mono (decimal n) (λ c d. ground arith) (decimal_digits n)) (row_one_line ns),
)

cpu_line_found :
    (n : ℕ) (ns rest : List ℕ)
    → find_first (has_prefix (codes "cpu ")) (lines (cpu_line (n ∷ ns) ++ b'\n' ∷ rest))
      ≡ some (cpu_line (n ∷ ns))
unfolding has_prefix
cpu_line_found n ns rest =
    rw (lines-first (cpu_line (n ∷ ns)) rest (refl, (refl, (refl, row_one_line (n ∷ ns))))) refl

zero_add : (n : ℕ) → 0 + n ≡ n
zero_add n = omega arith

totals_line :
    (n : ℕ) (ns : List ℕ)
    → All (λ k. k < 2 ^ 64) (n ∷ ns)
    → totals (codes "cpu" ∷ map decimal (n ∷ ns))
      ≡ some (sum_total 0 (n ∷ ns) % 2 ^ 64, sum_idle 0 (n ∷ ns) % 2 ^ 64)
unfolding totals
totals_line n ns h = ap some (
    add_fields-decimal 0 (n ∷ ns) 0 0 h (omega arith) (omega arith)
    ∙ pair_eq _ _ _ _ (ap (λ s. s % 2 ^ 64) (zero_add (sum_total 0 (n ∷ ns))))
        (ap (λ s. s % 2 ^ 64) (zero_add (sum_idle 0 (n ∷ ns)))))

-- Of a first line that gives counters that fit 64 bits, the total that is read is the sum of the first
-- eight and the idle time that of the fourth and the fifth, each modulo 2 ^ 64, whatever follows.
pub parse_proc_stat-line :
    (n : ℕ) (ns rest : List ℕ)
    → All (λ k. k < 2 ^ 64) (n ∷ ns)
    → parse_proc_stat (cpu_line (n ∷ ns) ++ b'\n' ∷ rest)
      ≡ some (sum_total 0 (n ∷ ns) % 2 ^ 64, sum_idle 0 (n ∷ ns) % 2 ^ 64)
unfolding parse_proc_stat totals_of_line
parse_proc_stat-line n ns rest h =
    ap totals_of_line (cpu_line_found n ns rest)
    ∙ ap totals (cpu_line-fields (n ∷ ns))
    ∙ totals_line n ns h
