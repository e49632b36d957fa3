-- ===== src/Fleet/Ports.antt =====
-- fleet/client.go: what RoutablePort and the port pattern find.
use llm_server_manager.Base.{
  ◌≡◌, refl, ap, ◌∙◌, ◌≢◌, ◌⊎◌, inl, inr, true, false, none, some, List, [], ◌∷◌, ◌++◌, ℕ, ◌≤◌, ◌<◌,
  codes, is_digit, All, arith, eqb_iff, Option-cases, subst, Bool-cases,
}
use llm_server_manager.Models.{ModelConfig, has_launch_cmd}
use llm_server_manager.Fleet.Port.{
  port_flag, after, take_digits, value_at, match_here, find_port, digits_at, digits_value,
  check_port, parse_launch_port, routable_port,
}

check_port_bounds : (n : ℕ) {p : ℕ} → check_port n ≡ some p → (0 < p) × (p ≤ 65535)
unfolding check_port
check_port_bounds n h = ground arith

parse_launch_port_bounds :
    (s : List ℕ) {p : ℕ} → parse_launch_port s ≡ some p → (0 < p) × (p ≤ 65535)
unfolding parse_launch_port
parse_launch_port_bounds s h = elim (Option-cases (find_port s)) [
  | inl q ↦ ground arith
  | inr (ds, q) ↦ check_port_bounds (digits_value 0 ds) (ground arith)
]

launched_port_bounds :
    (c : ModelConfig) (p : ℕ)
    → has_launch_cmd c ≡ true
    → routable_port c ≡ some p
    → (0 < p) × (p ≤ 65535)
unfolding routable_port
launched_port_bounds c p h e = elim (Option-cases c.launch_cmd) [
  | inl q ↦ ground arith
  | inr (cmd, q) ↦ parse_launch_port_bounds (codes cmd) (ground arith)
]

-- A routable model has a positive port; where it was read from a launch command it is at most 65535;
-- and a model with no launch command is always routable.
pub routable_port_bounds :
    (c : ModelConfig)
    → ((p : ℕ) → routable_port c ≡ some p → (0 < p) × (has_launch_cmd c ≡ true → p ≤ 65535))
      × (has_launch_cmd c ≡ false → routable_port c ≢ none)
unfolding routable_port
routable_port_bounds c = elim (Bool-cases (has_launch_cmd c)) [
  | inl h ↦ (λ p e. let b = launched_port_bounds c p h e in (b.0, λ _. b.1), λ n. cc)
  | inr h ↦ (λ p e. (ground arith, λ y. cc), λ n. ground arith)
]

after_sound : (ps s r : List ℕ) → after ps s ≡ some r → s ≡ ps ++ r
unfolding after
after_sound [] s r h = ground arith
after_sound (p ∷ ps) [] r h = cc
after_sound (p ∷ ps) (c ∷ s) r h = ground (arith, eqb_iff c p, after_sound ps s r)

pub after-append : (ps r : List ℕ) → after ps (ps ++ r) ≡ some r
unfolding after
after-append [] r = refl
after-append (p ∷ ps) r = ground (arith, eqb_iff p p, after-append ps r)

-- The digits taken are a prefix, are digits, and are followed by no digit.
abbrev pub StopsAt : List ℕ → Type 0
StopsAt [] = Unit
StopsAt (c ∷ s) = is_digit c ≡ false

take_digits_sound :
    (s : List ℕ)
    → (rest : List ℕ) × (s ≡ take_digits s ++ rest)
      × All (λ c. is_digit c ≡ true) (take_digits s)
      × StopsAt rest
unfolding take_digits
take_digits_sound [] = ([], refl, tt, tt)
take_digits_sound (c ∷ s) =
    let (rest, same, all, stops) = take_digits_sound s in
    elim (Bool-cases (is_digit c)) [
      | inl d ↦ (rest, ground arith, ground arith, stops)
      | inr d ↦ (c ∷ s, ground arith, ground arith, d)
    ]

list_cases : (s : List ℕ) → (s ≡ []) ⊎ ((x : ℕ) × (xs : List ℕ) × (s ≡ x ∷ xs))
list_cases [] = inl refl
list_cases (x ∷ xs) = inr (x, xs, refl)

-- The command holds the flag, a separator and these digits, of which there are as many as possible.
pub record Occurs (s ds : List ℕ) : Type 0 where
  pub before : List ℕ
  pub separator : ℕ
  pub behind : List ℕ
  pub text : s ≡ before ++ (port_flag ++ (separator ∷ (ds ++ behind)))
  pub separates : (separator ≡ b'=') ⊎ (separator ≡ b' ')
  pub digits : All (λ c. is_digit c ≡ true) ds
  pub some_digits : ds ≢ []
  pub stops : StopsAt behind

value_at_parts :
    (c : ℕ) (s ds : List ℕ)
    → value_at (c ∷ s) ≡ some ds
    → ((c ≡ b'=') ⊎ (c ≡ b' ')) × (take_digits s ≡ ds) × (ds ≢ [])
unfolding value_at digits_at
value_at_parts c s ds h = elim (list_cases (take_digits s)) [
  | inl e ↦ ground arith
  | inr (x, xs, e) ↦ ground arith
]

value_at_sound :
    (s ds : List ℕ)
    → value_at s ≡ some ds
    → (c : ℕ) × (rest : List ℕ) × (s ≡ c ∷ (ds ++ rest))
      × ((c ≡ b'=') ⊎ (c ≡ b' '))
      × All (λ d. is_digit d ≡ true) ds
      × (ds ≢ [])
      × StopsAt rest
unfolding value_at
value_at_sound [] ds h = cc
value_at_sound (c ∷ s) ds h =
    let (rest, same, all, stops) = take_digits_sound s in
    let (sep, same_ds, some_ds) = value_at_parts c s ds h in
    (c, rest, ground arith, sep, subst (All (λ d. is_digit d ≡ true)) same_ds all, some_ds, stops)

match_here-Occurs : (s ds : List ℕ) → match_here s ≡ some ds → Occurs s ds
unfolding match_here
match_here-Occurs s ds h = elim (Option-cases (after port_flag s)) [
  | inl q ↦ cc
  | inr (r, q) ↦
      let (c, rest, same, sep, all, some_ds, stops) = value_at_sound r ds (ground arith) in
      record {
        before = [];
        separator = c;
        behind = rest;
        text = after_sound port_flag s r q ∙ ap (λ t. port_flag ++ t) same;
        separates = sep;
        digits = all;
        some_digits = some_ds;
        stops = stops;
      }
]

Occurs-cons : (c : ℕ) (s ds : List ℕ) → Occurs s ds → Occurs (c ∷ s) ds
Occurs-cons c s ds o = record {
  before = c ∷ o.before;
  separator = o.separator;
  behind = o.behind;
  text = ap (λ t. c ∷ t) o.text;
  separates = o.separates;
  digits = o.digits;
  some_digits = o.some_digits;
  stops = o.stops;
}

find_port_tail :
    (c : ℕ) (s ds : List ℕ)
    → match_here (c ∷ s) ≡ none
    → find_port (c ∷ s) ≡ some ds
    → find_port s ≡ some ds
unfolding find_port
find_port_tail c s ds q h = ground arith

find_port_head :
    (c : ℕ) (s es : List ℕ) {ds : List ℕ}
    → match_here (c ∷ s) ≡ some es
    → find_port (c ∷ s) ≡ some ds
    → some es ≡ some ds
unfolding find_port
find_port_head c s es q h = ground arith

-- What the pattern finds in a launch command is there: the flag --port, a separator that is `=` or a
-- space, and then the digits found, at least one and followed by no further digit.
pub find_port-Occurs : (s ds : List ℕ) → find_port s ≡ some ds → Occurs s ds
unfolding find_port
find_port-Occurs [] ds h = cc
find_port-Occurs (c ∷ s) ds h = elim (Option-cases (match_here (c ∷ s))) [
  | inl q ↦ Occurs-cons c s ds (find_port-Occurs s ds (find_port_tail c s ds q h))
  | inr (es, q) ↦ match_here-Occurs (c ∷ s) ds (q ∙ find_port_head c s es q h)
]

-- A separator and a digit behind the flag are enough for a match at that place.
match_here_some :
    (c d : ℕ) (rest : List ℕ)
    → (c ≡ b'=') ⊎ (c ≡ b' ')
    → is_digit d ≡ true
    → match_here (port_flag ++ c ∷ d ∷ rest) ≢ none
unfolding match_here value_at digits_at take_digits after
match_here_some c d rest sep dig n = ground arith

-- Where a flag, a separator and a digit stand anywhere in the command, the pattern finds a port.
pub find_port_complete :
    (before rest : List ℕ) (c d : ℕ)
    → (c ≡ b'=') ⊎ (c ≡ b' ')
    → is_digit d ≡ true
    → find_port (before ++ (port_flag ++ c ∷ d ∷ rest)) ≢ none
unfolding find_port
find_port_complete [] rest c d sep dig n = ground (arith, match_here_some c d rest sep dig)
find_port_complete (b ∷ before) rest c d sep dig n =
    ground (arith, find_port_complete before rest c d sep dig)
