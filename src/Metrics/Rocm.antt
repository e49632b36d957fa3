-- ===== src/Metrics/Rocm.antt =====
-- metrics/gpu.go: parseROCm. The JSON decoder hands over the objects in the answer, each as the list of its
-- entries; both are maps, whose order Go does not fix, so the lists are in the order of the iteration.
-- strings.ToLower and the arithmetic of float64 are parameters.
use llm_server_manager.Base.{
  Bool, ◌&&◌, ◌||◌, not, Option, none, some, List, [], ◌∷◌, ℕ, eqb, if◌then◌else◌, is_some, codes,
  Float64, float_of, ltb_float,
}
use llm_server_manager.Metrics.Words.{has_prefix}
use llm_server_manager.Metrics.Gpu.{Row, GpuStats, no_gpu, trim, add_if_read}

-- A decoded value: a number, a text, or something else.
pub data JsonValue : Type 0 where
  number : Float64 → JsonValue
  text : List ℕ → JsonValue
  other : JsonValue

abbrev pub Card : Type 0
Card = List (List ℕ × JsonValue)

-- strings.Contains.
unfoldable pub contains : List ℕ → List ℕ → Bool
contains part [] = has_prefix part []
contains part (c ∷ s) = has_prefix part (c ∷ s) || contains part s

-- strings.TrimSuffix of "%".
unfoldable pub trim_percent : List ℕ → List ℕ
trim_percent [] = []
trim_percent (c ∷ []) = if eqb c b'%' then [] else c ∷ []
trim_percent (c ∷ d ∷ s) = c ∷ trim_percent (d ∷ s)

abbrev pub is_usage : List ℕ → Bool
is_usage k = contains (codes "gpu use") k || contains (codes "gpu utilization") k

abbrev pub is_used : List ℕ → Bool
is_used k = contains (codes "vram total used memory") k

abbrev pub is_total : List ℕ → Bool
is_total k = contains (codes "vram total memory") k

abbrev same_text : List ℕ → List ℕ → Bool
same_text s t = has_prefix s t && has_prefix t s

abbrev pub is_name : List ℕ → Bool
is_name k =
    contains (codes "card series") k
    || contains (codes "card model") k
    || same_text k (codes "gpu id")

module _ (lower : List ℕ → List ℕ) (parse_float : List ℕ → Option Float64)
    (round_1 : Float64 → Float64) (truncate : Float64 → ℕ) where
  -- findNumber: a value that is neither a number nor a text is passed over; a text that is no number
  -- ends the search.
  unfoldable pub find_number : (List ℕ → Bool) → Card → Option Float64
  unfolding trim trim_percent
  find_number match [] = none
  find_number match ((k, number v) ∷ card) =
      if match (lower k) then some v else find_number match card
  find_number match ((k, text s) ∷ card) =
      if match (lower k) then parse_float (trim_percent (trim s)) else find_number match card
  find_number match ((k, other) ∷ card) = find_number match card

  -- findString.
  unfoldable pub find_string : (List ℕ → Bool) → Card → List ℕ
  unfolding trim
  find_string match [] = []
  find_string match ((k, text s) ∷ card) =
      if match (lower k) then trim s else find_string match card
  find_string match ((k, _) ∷ card) = find_string match card

  -- uint64(maxFloat(v, 0)).
  abbrev pub bytes_of : Option Float64 → Option ℕ
  bytes_of none = none
  bytes_of (some v) = some (truncate (if ltb_float v (float_of 0) then float_of 0 else v))

  -- What is read of one card; `none` for one that is passed over.
  unfoldable pub card_row : Card → Option Row
  unfolding find_number find_string
  card_row card =
      let usage = find_number is_usage card in
      let used = find_number is_used card in
      let total = find_number is_total card in
      if not (is_some usage) && not (is_some used) && not (is_some total)
      then none
      else some (record {
        name = find_string is_name card;
        usage = usage;
        used = bytes_of used;
        total = bytes_of total;
      })

  -- The loop over the cards.
  unfoldable pub add_cards : List Card → GpuStats → GpuStats
  unfolding card_row
  add_cards [] gpu = gpu
  add_cards (card ∷ cards) gpu =
      add_cards cards (add_if_read parse_float round_1 truncate (card_row card) gpu)

  -- parseROCm, on what was decoded.
  unfoldable pub parse_rocm : List Card → Option GpuStats
  unfolding add_cards
  parse_rocm cards = let gpu = add_cards cards no_gpu in if eqb gpu.count 0 then none else some gpu
