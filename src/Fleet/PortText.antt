-- ===== src/Fleet/PortText.antt =====
-- fleet/client.go: the port that a launch command names is read back from its text.
use llm_server_manager.Base.{
  ◌≡◌, refl, ◌⊎◌, true, none, some, List, [], ◌∷◌, ◌++◌, ℕ, zero, suc, ◌+◌, ◌-◌, ◌*◌, ◌/◌, ◌%◌, ◌<◌,
  ◌≤◌, ltb, is_digit, codes, All, arith, if_cases, decimal, decimal_from, decimal_from_digits,
  decimal_from_some,
}
use llm_server_manager.Fleet.Port.{
  port_flag, take_digits, digits_at, value_at, match_here, find_port, digits_value, check_port,
  parse_launch_port,
}
use llm_server_manager.Fleet.Ports.{StopsAt, after-append}

digits_value-append :
    (acc : ℕ) (ds : List ℕ) (d : ℕ)
    → digits_value acc (ds ++ d ∷ []) ≡ digits_value acc ds * 10 + (d - b'0')
unfolding digits_value
digits_value-append acc [] d = refl
digits_value-append acc (c ∷ ds) d = digits_value-append (acc * 10 + (c - b'0')) ds d

digits_value-decimal_from : (fuel n : ℕ) → n < fuel → digits_value 0 (decimal_from fuel n) ≡ n
unfolding decimal_from
digits_value-decimal_from zero n h = elim h [ ]
digits_value-decimal_from (suc fuel) n h =
    if_cases (λ l. digits_value 0 l ≡ n) (ltb n 10) (λ small. unfold digits_value in omega arith)
      λ large.
        let ih = digits_value-decimal_from fuel (n / 10) (ground arith) in
        omega (arith, ih, digits_value-append 0 (decimal_from fuel (n / 10)) (n % 10 + b'0'))

pub digits_value-decimal : (n : ℕ) → digits_value 0 (decimal n) ≡ n
unfolding decimal
digits_value-decimal n = digits_value-decimal_from (suc n) n (omega arith)

take_digits-append :
    (ds rest : List ℕ)
    → All (λ c. is_digit c ≡ true) ds
    → StopsAt rest
    → take_digits (ds ++ rest) ≡ ds
unfolding take_digits
take_digits-append [] [] h stops = refl
take_digits-append [] (c ∷ rest) h stops = ground arith
take_digits-append (d ∷ ds) rest h stops = ground (arith, take_digits-append ds rest)

-- No match begins in the text before `tail`.
abbrev pub Quiet : List ℕ → List ℕ → Type 0
Quiet [] tail = Unit
Quiet (c ∷ before) tail = (match_here (c ∷ before ++ tail) ≡ none) × Quiet before tail

find_port-Quiet :
    (before : List ℕ) (c : ℕ) (tail ds : List ℕ)
    → Quiet before (c ∷ tail)
    → match_here (c ∷ tail) ≡ some ds
    → find_port (before ++ c ∷ tail) ≡ some ds
unfolding find_port
find_port-Quiet [] c tail ds q m = ground arith
find_port-Quiet (b ∷ before) c tail ds q m = ground (arith, find_port-Quiet before c tail ds)

-- `--port`, a separator, a number and what follows it.
abbrev pub port_argument : ℕ → ℕ → List ℕ → List ℕ
port_argument separator n rest = port_flag ++ separator ∷ (decimal n ++ rest)

value_at-digits :
    (separator : ℕ) (ds rest : List ℕ)
    → (separator ≡ b'=') ⊎ (separator ≡ b' ')
    → All (λ c. is_digit c ≡ true) ds
    → StopsAt rest
    → value_at (separator ∷ (ds ++ rest)) ≡ digits_at ds
unfolding value_at
value_at-digits separator ds rest sep digits stops =
    ground (arith, take_digits-append ds rest digits stops)

digits_at-some : (d : ℕ) (ds s : List ℕ) → s ≡ d ∷ ds → digits_at s ≡ some s
unfolding digits_at
digits_at-some d ds s e = rw (e, digits_at) refl

match_here-port_argument :
    (separator n : ℕ) (rest : List ℕ)
    → (separator ≡ b'=') ⊎ (separator ≡ b' ')
    → StopsAt rest
    → match_here (port_argument separator n rest) ≡ some (decimal n)
unfolding match_here decimal
match_here-port_argument separator n rest sep stops =
    let (d, ds, e) = decimal_from_some n n in
    let found = after-append port_flag (separator ∷ (decimal n ++ rest)) in
    let value =
      value_at-digits separator (decimal n) rest sep (decimal_from_digits (suc n) n) stops in
    let some_digits : digits_at (decimal n) ≡ some (decimal n) =
      digits_at-some d ds (decimal n) e in
    ground (arith, found, value, some_digits)

-- A port in decimal behind the flag and a separator, and followed by no further digit, is the port that
-- is parsed, whatever the rest of the command, if it is a valid port and no match begins before it.
pub parse_launch_port-decimal :
    (before rest : List ℕ) (separator n : ℕ)
    → (separator ≡ b'=') ⊎ (separator ≡ b' ')
    → StopsAt rest
    → Quiet before (port_argument separator n rest)
    → 0 < n
    → n ≤ 65535
    → parse_launch_port (before ++ port_argument separator n rest) ≡ some n
unfolding parse_launch_port check_port
parse_launch_port-decimal before rest separator n sep stops quiet positive small =
    let found =
      find_port-Quiet before b'-' (codes "-port" ++ separator ∷ (decimal n ++ rest)) (decimal n)
        quiet (match_here-port_argument separator n rest sep stops) in
    ground (arith, found, digits_value-decimal n)
