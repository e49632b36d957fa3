-- ===== src/Metrics/RocmOrder.antt =====
-- metrics/gpu.go: what parseROCm sums up does not depend on the order of Go's maps.
use mathlib.Core.List.{Permᴰ}
use llm_server_manager.Base.{
  ◌≡◌, refl, sym, ap, ◌∙◌, false, Option, none, some, List, [], ◌∷◌, ℕ, ◌+◌, ◌%◌, ◌^◌, eqb, length,
  from_option, Option-cases, arith, Float64, inl, inr, subst,
}
use llm_server_manager.Metrics.Gpu.{Row, GpuStats, no_gpu, add_row}
use llm_server_manager.Metrics.GpuRows.{IsPercent, sum_of, Sums, add_all, add_all-Sums, prepend_row}
use llm_server_manager.Metrics.Rocm.{Card, card_row, add_cards, parse_rocm}

-- The parts of the statistics that are sums.
pub record SameSums (g h : GpuStats) : Type 0 where
  pub count : g.count ≡ h.count
  pub used : g.memory_used_bytes ≡ h.memory_used_bytes
  pub total : g.memory_total_bytes ≡ h.memory_total_bytes

module _ (lower : List ℕ → List ℕ) (parse_float : List ℕ → Option Float64)
    (round_1 : Float64 → Float64) (truncate : Float64 → ℕ)
    (rounds : (v : Float64) → IsPercent v → IsPercent (round_1 v)) where
  abbrev pub rows_of_cards : List Card → List Row
  rows_of_cards [] = []
  rows_of_cards (card ∷ cards) =
      prepend_row parse_float round_1 truncate (card_row lower parse_float round_1 truncate card)
        (rows_of_cards cards)

  add_cards-rows :
      (cards : List Card) (gpu : GpuStats)
      → add_cards lower parse_float round_1 truncate cards gpu
        ≡ add_all parse_float round_1 truncate (rows_of_cards cards) gpu
  unfolding add_cards
  add_cards-rows [] gpu = refl
  add_cards-rows (card ∷ cards) gpu =
      elim (Option-cases (card_row lower parse_float round_1 truncate card)) [
        | inl e ↦ rw e (add_cards-rows cards gpu)
        | inr (r, e) ↦ rw e (add_cards-rows cards (add_row parse_float round_1 truncate r gpu))
      ]

  add_cards-Sums :
      (cards : List Card)
      → Sums (rows_of_cards cards) (add_cards lower parse_float round_1 truncate cards no_gpu)
  add_cards-Sums cards =
      subst (Sums (rows_of_cards cards)) (sym (add_cards-rows cards no_gpu))
        (add_all-Sums parse_float round_1 truncate rounds (rows_of_cards cards))

  -- What one card adds to a sum.
  abbrev weight : (Row → Option ℕ) → Option Row → ℕ
  weight f none = 0
  weight f (some r) = from_option 0 (f r)

  prepend-sum :
      (f : Row → Option ℕ) (o : Option Row) (rs : List Row)
      → sum_of f (prepend_row parse_float round_1 truncate o rs) ≡ weight f o + sum_of f rs
  prepend-sum f none rs = omega arith
  prepend-sum f (some r) rs = refl

  abbrev weight_of : (Row → Option ℕ) → Card → ℕ
  weight_of f card = weight f (card_row lower parse_float round_1 truncate card)

  sum-cons :
      (f : Row → Option ℕ) (card : Card) (cards : List Card)
      → sum_of f (rows_of_cards (card ∷ cards)) ≡ weight_of f card + sum_of f (rows_of_cards cards)
  sum-cons f card cards =
      prepend-sum f (card_row lower parse_float round_1 truncate card) (rows_of_cards cards)

  sum-order :
      (f : Row → Option ℕ) {cards cards' : List Card}
      → Permᴰ cards cards'
      → sum_of f (rows_of_cards cards) ≡ sum_of f (rows_of_cards cards')
  sum-order f Permᴰ.nil = refl
  sum-order f (Permᴰ.cons {a = a} {b = b} {l₁ = l} {l₂ = m} e d) =
      omega (arith, sum-cons f a l, sum-cons f b m, ap (weight_of f) e, sum-order f d)
  sum-order f (Permᴰ.swap {a = a} {b = b} {a' = a'} {b' = b'} {l = l} e e') = omega (
    arith,
    sum-cons f a (b ∷ l),
    sum-cons f b l,
    sum-cons f a' (b' ∷ l),
    sum-cons f b' l,
    ap (weight_of f) e,
    ap (weight_of f) e',
  )
  sum-order f (Permᴰ.trans d d') = sum-order f d ∙ sum-order f d'

  length_is_sum : (rs : List Row) → length rs ≡ sum_of (λ r. some 1) rs
  length_is_sum [] = refl
  length_is_sum (r ∷ rs) = omega (arith, length_is_sum rs)

  add_cards-order :
      {cards cards' : List Card}
      → Permᴰ cards cards'
      → SameSums
          (add_cards lower parse_float round_1 truncate cards no_gpu)
          (add_cards lower parse_float round_1 truncate cards' no_gpu)
  add_cards-order {cards} {cards'} p =
      let s = add_cards-Sums cards in
      let t = add_cards-Sums cards' in
      record {
        count =
            s.counted
            ∙ length_is_sum (rows_of_cards cards)
            ∙ sum-order (λ r. some 1) p
            ∙ sym (length_is_sum (rows_of_cards cards'))
            ∙ sym t.counted;
        used = s.used ∙ ap (λ n. n % 2 ^ 64) (sum-order (λ r. r.used) p) ∙ sym t.used;
        total = s.total ∙ ap (λ n. n % 2 ^ 64) (sum-order (λ r. r.total) p) ∙ sym t.total;
      }

  -- However Go orders the cards of the decoded answer, parseROCm finds a card in the one order exactly
  -- if it does in the other, with as many cards and the same amounts of memory, and a percentage
  -- between 0 and 100, if rounding keeps a percentage one.
  pub parse_rocm-order :
      (cards cards' : List Card)
      → Permᴰ cards cards'
      → (g : GpuStats) → parse_rocm lower parse_float round_1 truncate cards ≡ some g
      → IsPercent g.usage_percent
        × ((h : GpuStats) × (parse_rocm lower parse_float round_1 truncate cards' ≡ some h)
            × SameSums g h)
  unfolding parse_rocm
  parse_rocm-order cards cards' p g e =
      let a = add_cards lower parse_float round_1 truncate cards no_gpu in
      let b = add_cards lower parse_float round_1 truncate cards' no_gpu in
      let same = add_cards-order p in
      let found : (g ≡ a) × (eqb a.count 0 ≡ false) = (ground (arith, e), ground (arith, e)) in
      (
        subst (λ x. IsPercent x.usage_percent) (sym found.0) (add_cards-Sums cards).percent,
        (b, ground (arith, found, same.count), subst (λ x. SameSums x b) (sym found.0) same),
      )
