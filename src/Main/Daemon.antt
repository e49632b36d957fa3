-- ===== src/Main/Daemon.antt =====
-- main.go: the daemon's own command line.
use Prim.Native.Char.{code}
use text.Mathlib.TextEquality.{Char-path}
use llm_server_manager.Base.{
  subst, ◌≡◌, refl, sym, ap, ◌∙◌, ◌≢◌, ◌⊎◌, inl, inr, String, ◌==◌, eq_iff, Bool, true, not, ◌&&◌,
  Option, none, some, List, [], ◌∷◌, ℤ, eqb, eqb_iff, All, arith, strip_prefix?, Option-cases,
  Bool-cases, if_cases,
}
use llm_server_manager.Main.{
  Options, default_options, Argument, flag, positional, malformed, end_of_flags, cut_value,
  read_name, read_argument, is_switch, set_switch, set_option, parse_flags, daemon_args, main,
  daemon_started, switch_value,
}

cut_value-whole : (s : String) → (cut_value s).1 ≡ none → (cut_value s).0 ≡ s
unfolding cut_value
cut_value-whole String.[] h = refl
cut_value-whole (String.◌∷◌ c s) h = elim (Bool-cases (eqb (code c) b'=')) [
  | inl y ↦ ground arith
  | inr n ↦ ground (arith, cut_value-whole s)
]

read_name-whole : (s name : String) → read_name s ≡ flag name none → s ≡ name
unfolding read_name
read_name-whole String.[] name h = cc
read_name-whole (String.◌∷◌ c s) name h = ground (arith, cut_value-whole (String.◌∷◌ c s))

strip_dash : (s rest : String) → strip_prefix? "-" s ≡ some rest → s ≡ String.◌∷◌ "-" rest
unfolding strip_prefix?
strip_dash String.[] rest h = cc
strip_dash (String.◌∷◌ c s) rest h = elim (Bool-cases (eqb b'-' (code c))) [
  | inl y ↦
      let dash = Char-path "-" c ((eqb_iff b'-' (code c)).0 y) in
      let same : s ≡ rest = ground (arith, h) in
      ap (λ d. String.◌∷◌ d s) (sym dash) ∙ ap (String.◌∷◌ "-") same
  | inr n ↦ ground (arith, h)
]

-- An argument that reads as a flag without a value is that flag's name behind one dash or two.
plain_flag :
    (a name : String)
    → read_argument a ≡ flag name none
    → (a ≡ String.◌∷◌ "-" name) ⊎ (a ≡ String.◌∷◌ "-" (String.◌∷◌ "-" name))
unfolding read_argument
plain_flag a name h = elim (Option-cases (strip_prefix? "-" a)) [
  | inl e ↦ ground (arith, h)
  | inr (rest, e) ↦ elim (Option-cases (strip_prefix? "-" rest)) [
    | inl f ↦
        let g : read_name rest ≡ flag name none = ground (arith, h) in
        inl (strip_dash a rest e ∙ ap (String.◌∷◌ "-") (read_name-whole rest name g))
    | inr (inner, f) ↦
        let g : read_name inner ≡ flag name none = ground (arith, h) in
        inr (
          strip_dash a rest e
          ∙ ap (String.◌∷◌ "-")
              (strip_dash rest inner f ∙ ap (String.◌∷◌ "-") (read_name-whole inner name g)))
  ]
]

-- The argument does not set the flag `daemon` with '='.
abbrev pub Unassigned : String → Type 0
Unassigned a = (v : String) → read_argument a ≢ flag "daemon" (some v)

-- The argument does not set the flag `daemon` at all.
abbrev Silent : String → Type 0
Silent a = (value : Option String) → read_argument a ≢ flag "daemon" value

kept-Silent :
    (a : String) → Unassigned a → not (a == "-daemon") && not (a == "--daemon") ≡ true → Silent a
kept-Silent a u k (some v) h = u v h
kept-Silent a u k none h =
    ground (arith, eq_iff a "-daemon", eq_iff a "--daemon", plain_flag a "daemon" h)

daemon_args-Silent : (args : List String) → All Unassigned args → All Silent (daemon_args args)
unfolding daemon_args
daemon_args-Silent [] h = tt
daemon_args-Silent (a ∷ args) h =
    if_cases (All Silent) (not (a == "-daemon") && not (a == "--daemon"))
      (λ k. (kept-Silent a h.0 k, daemon_args-Silent args h.1)) (λ _. daemon_args-Silent args h.1)

set_switch-daemon :
    (name : String) (b : Bool) (o : Options)
    → name ≢ "daemon"
    → (set_switch name b o).daemon_mode ≡ o.daemon_mode
unfolding set_switch
set_switch-daemon name b o n = ground (arith, eq_iff name "daemon")

Argument-cases :
    (x : Argument)
    → ((x ≡ positional) ⊎ ((x ≡ end_of_flags) ⊎ (x ≡ malformed)))
      ⊎ ((name : String) × (value : Option String) × (x ≡ flag name value))
Argument-cases (flag name value) = inr (name, value, refl)
Argument-cases positional = inl (inl refl)
Argument-cases end_of_flags = inl (inr (inl refl))
Argument-cases malformed = inl (inr (inr refl))

module _ (parse_int : String → Option ℤ) where
  set_option-daemon :
      (name v : String) (o o' : Options)
      → set_option parse_int name v o ≡ some o'
      → o'.daemon_mode ≡ o.daemon_mode
  unfolding set_option
  set_option-daemon name v o o' h = ground (arith, h)

  parse_flags-daemon :
      (o o' : Options) (pending : Option String) (args : List String)
      → All Silent args
      → parse_flags parse_int o pending args ≡ some o'
      → o'.daemon_mode ≡ o.daemon_mode
  unfolding parse_flags
  parse_flags-daemon o o' none [] s h = ground (arith, h)
  parse_flags-daemon o o' (some name) [] s h = cc
  parse_flags-daemon o o' (some name) (v ∷ args) s h =
      elim (Option-cases (set_option parse_int name v o)) [
        | inl e ↦ ground (arith, h)
        | inr (o1, e) ↦
            parse_flags-daemon o1 o' none args s.1 (ground (arith, h))
            ∙ set_option-daemon name v o o1 e
      ]
  parse_flags-daemon o o' none (a ∷ args) s h = elim (Argument-cases (read_argument a)) [
    | inl n ↦ ground (arith, h, n)
    | inr (name, value, e) ↦ elim (Bool-cases (is_switch name)) [
      | inl y ↦ elim (Option-cases (switch_value value)) [
        | inl f ↦ ground (arith, h)
        | inr (b, f) ↦
            parse_flags-daemon (set_switch name b o) o' none args s.1 (ground (arith, h))
            ∙ set_switch-daemon name b o (λ d. s.0 value (e ∙ ap (λ n. flag n value) d))
      ]
      | inr n ↦ elim (Option-cases value) [
        | inl f ↦ parse_flags-daemon o o' (some name) args s.1 (ground (arith, h))
        | inr (v, f) ↦ elim (Option-cases (set_option parse_int name v o)) [
          | inl g ↦ ground (arith, h)
          | inr (o1, g) ↦
              parse_flags-daemon o1 o' none args s.1 (ground (arith, h))
              ∙ set_option-daemon name v o o1 g
        ]
      ]
    ]
  ]

-- Where no argument sets the daemon flag with '=', the arguments that the daemon gets do not ask for
-- another one: main never starts a daemon on them.
pub main-daemon_args :
    (parse_int : String → Option ℤ) (valid : String → Bool) (forks builds serves : Bool)
    (args child : List String)
    → All Unassigned args
    → main parse_int valid forks builds serves (daemon_args args) ≢ daemon_started child
unfolding main
main-daemon_args parse_int valid forks builds serves args child u h =
    elim (Option-cases (parse_flags parse_int default_options none (daemon_args args))) [
      | inl e ↦ ground (arith, h)
      | inr (o, e) ↦ ground (
        arith,
        h,
        parse_flags-daemon parse_int default_options o none (daemon_args args)
            (daemon_args-Silent args u) e,
      )
    ]

daemon_args-same :
    (args : List String)
    → All (λ a. (a ≢ "-daemon") × (a ≢ "--daemon")) args
    → daemon_args args ≡ args
unfolding daemon_args
daemon_args-same [] h = refl
daemon_args-same (a ∷ args) h =
    ground (arith, h.0, eq_iff a "-daemon", eq_iff a "--daemon", daemon_args-same args h.1)

main-child :
    (parse_int : String → Option ℤ) (valid : String → Bool) (forks builds serves : Bool)
    (args child : List String)
    → main parse_int valid forks builds serves args ≡ daemon_started child
    → daemon_args args ≡ child
unfolding main
main-child parse_int valid forks builds serves args child h =
    elim (Option-cases (parse_flags parse_int default_options none args)) [
      | inl e ↦ ground (arith, h)
      | inr (o, e) ↦ ground (arith, h)
    ]

-- Where the arguments ask for a daemon but none is the plain flag, as with "-daemon=true", the daemon
-- gets the same arguments, and so starts a daemon in turn.
pub main-same_args :
    (parse_int : String → Option ℤ) (valid : String → Bool) (forks builds serves : Bool)
    (args child : List String)
    → All (λ a. (a ≢ "-daemon") × (a ≢ "--daemon")) args
    → main parse_int valid forks builds serves args ≡ daemon_started child
    → main parse_int valid forks builds serves child ≡ daemon_started child
main-same_args parse_int valid forks builds serves args child p h =
    subst (λ c. main parse_int valid forks builds serves c ≡ daemon_started child)
      (sym (daemon_args-same args p) ∙ main-child parse_int valid forks builds serves args child h)
      h
