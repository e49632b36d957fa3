-- ===== src/Base/Text.antt =====
-- Texts: the functions of Go's strings package that the program calls, over native strings, and the
-- code points of a text for the code that matches patterns.
use Prim.Native.Nat.{ℕ}
use Prim.Native.Char.{code}
use Prim.Native.String
use Prim.Native.String.{String}
use text.Mathlib.Text.{◌==◌}
use mathlib.Core.Bool.{Bool, ◌&&◌, ◌||◌}
use mathlib.Core.List.{List, [], ◌∷◌}
use mathlib.Core.Option.{Option, none, some}
use llm_server_manager.Base.Tests.{leb, eqb, from_option, if◌then◌else◌}

abbrev pub codes : String → List ℕ
codes String.[] = []
codes (String.◌∷◌ c s) = code c ∷ codes s

-- Go's unicode.IsSpace.
abbrev pub is_space : ℕ → Bool
is_space c =
    leb 9 c && leb c 13
    || eqb c 32
    || eqb c 0x85
    || eqb c 0xA0
    || eqb c 0x1680
    || leb 0x2000 c && leb c 0x200A
    || eqb c 0x2028
    || eqb c 0x2029
    || eqb c 0x202F
    || eqb c 0x205F
    || eqb c 0x3000

-- The space at the start of a text taken off.
unfoldable pub trim_left : String → String
trim_left String.[] = String.[]
trim_left (String.◌∷◌ c s) = if is_space (code c) then trim_left s else String.◌∷◌ c s

-- The characters of a class taken off the end of a text.
unfoldable pub trim_right : (ℕ → Bool) → String → String
trim_right p String.[] = String.[]
trim_right p (String.◌∷◌ c s) =
    let rest = trim_right p s in if rest == "" && p (code c) then String.[] else String.◌∷◌ c rest

-- strings.TrimSpace.
unfoldable pub trim_space : String → String
unfolding trim_left trim_right
trim_space s = trim_right is_space (trim_left s)

-- What is left of a text behind a prefix.
unfoldable pub strip_prefix? : String → String → Option String
strip_prefix? String.[] s = some s
strip_prefix? (String.◌∷◌ p ps) String.[] = none
strip_prefix? (String.◌∷◌ p ps) (String.◌∷◌ c s) =
    if eqb (code p) (code c) then strip_prefix? ps s else none

-- strings.TrimPrefix.
unfoldable pub trim_prefix : String → String → String
unfolding strip_prefix?
trim_prefix p s = from_option s (strip_prefix? p s)

-- The parts of a text between occurrences of one character: `cur` is the part read so far.
unfoldable pub split_from : ℕ → String → String → List String
split_from sep cur String.[] = cur ∷ []
split_from sep cur (String.◌∷◌ c s) =
    let closed = cur ∷ split_from sep "" s in
    let longer = split_from sep (String.◌++◌ cur (String.◌∷◌ c "")) s in
    if eqb (code c) sep then closed else longer

-- strings.Split at a separator of one character.
unfoldable pub split_at : ℕ → String → List String
unfolding split_from
split_at sep s = split_from sep "" s

abbrev pub is_digit : ℕ → Bool
is_digit c = leb b'0' c && leb c b'9'
