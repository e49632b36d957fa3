-- ===== src/Base/Decimal.antt =====
-- Numbers in decimal, as fmt prints them with %d.
use Prim.Native.Nat.{ℕ, zero, suc, ◌+◌, ◌/◌, ◌%◌, ◌<◌}
use mathlib.Core.Path.{◌≡◌, refl}
use mathlib.Core.Bool.{true}
use mathlib.Core.List.{List, [], ◌∷◌, ◌++◌}
use native.Mathlib.Omega.{arith}
use llm_server_manager.Base.Tests.{ltb, if◌then◌else◌, if_cases}
use llm_server_manager.Base.Text.{is_digit}
use llm_server_manager.Base.Lists.{All, All-append}

-- `fuel` is more than the number.
unfoldable pub decimal_from : ℕ → ℕ → List ℕ
decimal_from zero n = []
decimal_from (suc fuel) n =
    let front = decimal_from fuel (n / 10) in
    if ltb n 10 then (n + b'0') ∷ [] else front ++ (n % 10 + b'0') ∷ []

unfoldable pub decimal : ℕ → List ℕ
unfolding decimal_from
decimal n = decimal_from (suc n) n

digit_of : (n : ℕ) → n < 10 → is_digit (n + b'0') ≡ true
digit_of n h = ground arith

pub decimal_from_digits : (fuel n : ℕ) → All (λ c. is_digit c ≡ true) (decimal_from fuel n)
unfolding decimal_from
decimal_from_digits zero n = tt
decimal_from_digits (suc fuel) n =
    if_cases (All (λ c. is_digit c ≡ true)) (ltb n 10) (λ small. (digit_of n (ground arith), tt))
      λ _.
        All-append (λ c. is_digit c ≡ true) (decimal_from fuel (n / 10)) ((n % 10 + b'0') ∷ [])
          (decimal_from_digits fuel (n / 10)) (digit_of (n % 10) (omega arith), tt)

-- Every number has a digit.
pub decimal_from_some :
    (fuel n : ℕ) → (d : ℕ) × (ds : List ℕ) × (decimal_from (suc fuel) n ≡ d ∷ ds)
unfolding decimal_from
decimal_from_some fuel n =
    if_cases (λ l. (d : ℕ) × (ds : List ℕ) × (l ≡ d ∷ ds)) (ltb n 10) (λ _. (n + b'0', [], refl))
      (λ _. append_some (decimal_from fuel (n / 10)) (n % 10 + b'0'))
  where
    append_some : (xs : List ℕ) (x : ℕ) → (d : ℕ) × (ds : List ℕ) × (xs ++ x ∷ [] ≡ d ∷ ds)
    append_some [] x = (x, [], refl)
    append_some (y ∷ ys) x = (y, ys ++ x ∷ [], refl)
