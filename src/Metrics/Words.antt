-- ===== src/Metrics/Words.antt =====
-- metrics/sampler_linux.go: strings.Split, strings.Fields, strings.HasPrefix and strconv.ParseUint on a list of
-- codes.
use mathlib.Core.List.{append-nil}
use llm_server_manager.Base.{
  ◌≡◌, refl, ap, ◌∙◌, Bool, true, false, ◌&&◌, not, Option, none, some, List, [], ◌∷◌, ◌++◌, map, ℕ,
  suc, ◌<◌, ◌^◌, ltb, eqb, keep, if◌then◌else◌, is_digit, is_space, arith, All, All-mono, decimal,
  decimal_from_digits, decimal_from_some,
}
use llm_server_manager.Fleet.Port.{digits_value}
use llm_server_manager.Fleet.PortText.{digits_value-decimal}

-- A character in front of the first part.
abbrev pub cons_first : ℕ → List (List ℕ) → List (List ℕ)
cons_first c [] = (c ∷ []) ∷ []
cons_first c (w ∷ ws) = (c ∷ w) ∷ ws

-- The parts of a text between the characters of a class.
unfoldable pub split_by : (ℕ → Bool) → List ℕ → List (List ℕ)
split_by p [] = [] ∷ []
split_by p (c ∷ s) = let rest = split_by p s in if p c then [] ∷ rest else cons_first c rest

-- strings.Split at a newline.
unfoldable pub lines : List ℕ → List (List ℕ)
unfolding split_by
lines s = split_by (λ c. eqb c b'\n') s

abbrev pub is_empty : List ℕ → Bool
is_empty [] = true
is_empty (c ∷ s) = false

-- strings.Fields.
unfoldable pub fields : List ℕ → List (List ℕ)
unfolding split_by
fields s = keep (λ w. not (is_empty w)) (split_by is_space s)

unfoldable pub has_prefix : List ℕ → List ℕ → Bool
has_prefix [] s = true
has_prefix (p ∷ ps) [] = false
has_prefix (p ∷ ps) (c ∷ s) = eqb p c && has_prefix ps s

abbrev pub all_digits : List ℕ → Bool
all_digits [] = true
all_digits (c ∷ s) = is_digit c && all_digits s

-- strconv.ParseUint in base 10 for 64 bits.
unfoldable pub parse_uint : List ℕ → Option ℕ
parse_uint s =
    if not (is_empty s) && all_digits s && ltb (digits_value 0 s) (2 ^ 64)
    then some (digits_value 0 s)
    else none

-- Text without a character of the class in front of one.
split_by-at :
    (p : ℕ → Bool) (w : List ℕ) (c : ℕ) (s : List ℕ)
    → All (λ d. p d ≡ false) w
    → p c ≡ true
    → split_by p (w ++ c ∷ s) ≡ w ∷ split_by p s
unfolding split_by
split_by-at p [] c s h e = ground arith
split_by-at p (d ∷ w) c s h e = ground (arith, split_by-at p w c s)

split_by-end : (p : ℕ → Bool) (w : List ℕ) → All (λ d. p d ≡ false) w → split_by p w ≡ w ∷ []
unfolding split_by
split_by-end p [] h = refl
split_by-end p (d ∷ w) h = ground (arith, split_by-end p w)

pub lines-first :
    (line rest : List ℕ)
    → All (λ d. eqb d b'\n' ≡ false) line
    → lines (line ++ b'\n' ∷ rest) ≡ line ∷ lines rest
unfolding lines
lines-first line rest h = split_by-at (λ c. eqb c b'\n') line b'\n' rest h refl

all_digits-all : (s : List ℕ) → All (λ c. is_digit c ≡ true) s → all_digits s ≡ true
all_digits-all [] h = refl
all_digits-all (c ∷ s) h = ground (arith, all_digits-all s)

parse_uint_digits :
    (s : List ℕ) (n : ℕ)
    → is_empty s ≡ false
    → all_digits s ≡ true
    → digits_value 0 s ≡ n
    → n < 2 ^ 64
    → parse_uint s ≡ some n
unfolding parse_uint
parse_uint_digits s n full digits value small = ground arith

pub decimal_nonempty : (n : ℕ) → is_empty (decimal n) ≡ false
unfolding decimal
decimal_nonempty n = let (d, ds, e) = decimal_from_some n n in ap is_empty e

pub decimal_digits : (n : ℕ) → All (λ c. is_digit c ≡ true) (decimal n)
unfolding decimal
decimal_digits n = decimal_from_digits (suc n) n

-- A number in decimal that fits 64 bits is read back.
pub parse_uint-decimal : (n : ℕ) → n < 2 ^ 64 → parse_uint (decimal n) ≡ some n
parse_uint-decimal n h =
    parse_uint_digits (decimal n) n (decimal_nonempty n)
      (all_digits-all (decimal n) (decimal_digits n)) (digits_value-decimal n) h

-- Numbers in decimal, each behind a space.
abbrev pub row : List ℕ → List ℕ
row [] = []
row (n ∷ ns) = b' ' ∷ decimal n ++ row ns

digit_not_space : (c : ℕ) → is_digit c ≡ true → is_space c ≡ false
digit_not_space c h = ground arith

decimal_solid : (n : ℕ) → All (λ c. is_space c ≡ false) (decimal n)
decimal_solid n = All-mono (decimal n) digit_not_space (decimal_digits n)

-- A word and a row of numbers behind it.
split_by-row :
    (w : List ℕ) (ns : List ℕ)
    → All (λ c. is_space c ≡ false) w
    → split_by is_space (w ++ row ns) ≡ w ∷ map decimal ns
split_by-row w [] h = ap (split_by is_space) (append-nil w) ∙ split_by-end is_space w h
split_by-row w (n ∷ ns) h =
    split_by-at is_space w b' ' (decimal n ++ row ns) h refl
    ∙ ap (λ r. w ∷ r) (split_by-row (decimal n) ns (decimal_solid n))

keep_decimals : (ns : List ℕ) → keep (λ w. not (is_empty w)) (map decimal ns) ≡ map decimal ns
keep_decimals [] = refl
keep_decimals (n ∷ ns) = ground (arith, decimal_nonempty n, keep_decimals ns)

pub fields-row :
    (c : ℕ) (w ns : List ℕ)
    → All (λ d. is_space d ≡ false) (c ∷ w)
    → fields ((c ∷ w) ++ row ns) ≡ (c ∷ w) ∷ map decimal ns
unfolding fields
fields-row c w ns h =
    ap (keep (λ v. not (is_empty v))) (split_by-row (c ∷ w) ns h)
    ∙ ap (λ r. (c ∷ w) ∷ r) (keep_decimals ns)
