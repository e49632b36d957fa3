-- ===== src/Fleet/Port.antt =====
-- fleet/client.go: RoutablePort and parseLaunchPort. The pattern --port[= ]([0-9]+) is matched over
-- the code points of the command, leftmost match first, as many digits as there are.
use llm_server_manager.Base.{
  String, ◌||◌, Option, none, some, List, [], ◌∷◌, if◌then◌else◌, ℕ, ◌+◌, ◌*◌, ◌-◌, eqb, ltb, codes,
  is_digit, ℤ, pos, negsuc,
}
use llm_server_manager.Models.{ModelConfig, has_launch_cmd}

abbrev pub default_llama_port : ℕ
default_llama_port = 8081

abbrev pub port_flag : List ℕ
port_flag = codes "--port"

-- The rest of a text behind a literal prefix.
unfoldable pub after : List ℕ → List ℕ → Option (List ℕ)
after [] s = some s
after (p ∷ ps) [] = none
after (p ∷ ps) (c ∷ s) = if eqb c p then after ps s else none

-- The digits at the start of a text.
unfoldable pub take_digits : List ℕ → List ℕ
take_digits [] = []
take_digits (c ∷ s) = if is_digit c then c ∷ take_digits s else []

unfoldable pub digits_at : List ℕ → Option (List ℕ)
digits_at [] = none
digits_at (d ∷ ds) = some (d ∷ ds)

-- What stands behind the flag: `=` or a space, then at least one digit.
unfoldable pub value_at : List ℕ → Option (List ℕ)
value_at [] = none
value_at (c ∷ s) = if eqb c b'=' || eqb c b' ' then digits_at (take_digits s) else none

-- A match at the start of the text.
unfoldable pub match_here : List ℕ → Option (List ℕ)
match_here s = elim (after port_flag s) [ none ↦ none | some rest ↦ value_at rest ]

-- The digits of the leftmost match.
unfoldable pub find_port : List ℕ → Option (List ℕ)
find_port [] = none
find_port (c ∷ s) = elim (match_here (c ∷ s)) [ some ds ↦ some ds | none ↦ find_port s ]

-- strconv.Atoi on digits. A number beyond int64, where it fails, is beyond every port too.
unfoldable pub digits_value : ℕ → List ℕ → ℕ
digits_value acc [] = acc
digits_value acc (d ∷ ds) = digits_value (acc * 10 + (d - b'0')) ds

unfoldable pub check_port : ℕ → Option ℕ
check_port n = if ltb n 1 || ltb 65535 n then none else some n

unfoldable pub parse_launch_port : List ℕ → Option ℕ
parse_launch_port cmd = elim (find_port cmd) [
  | none ↦ none
  | some ds ↦ check_port (digits_value 0 ds)
]

-- *cfg.Port where it is positive.
unfoldable pub configured_port : Option ℤ → ℕ
configured_port none = default_llama_port
configured_port (some (pos n)) = if ltb 0 n then n else default_llama_port
configured_port (some (negsuc n)) = default_llama_port

unfoldable pub launch_port : Option String → Option ℕ
launch_port none = none
launch_port (some cmd) = parse_launch_port (codes cmd)

-- RoutablePort: `none` where the model is not routable, for which the source returns port 0.
unfoldable pub routable_port : ModelConfig → Option ℕ
unfolding configured_port launch_port
routable_port c =
    if has_launch_cmd c then launch_port c.launch_cmd else some (configured_port c.port)
