-- ===== src/Proxy/Warnings.antt =====
-- proxy/proxy.go: warnOnce with claimLabel, and the warnings of a rebuild. How %q writes a text is a parameter.
use Prim.Native.String
use llm_server_manager.Base.{
  ◌≡◌, refl, String, ◌==◌, eq_iff, Bool, ◌||◌, List, [], ◌∷◌, ◌++◌, ℕ, ◌+◌, any, if◌then◌else◌,
  arith,
}
use llm_server_manager.Proxy.Table.{NameClaim, Collision}

unfoldable pub claim_label : NameClaim → String
claim_label c = if c.is_alias then "an alias" else "a real model name"

-- The warnings that a router has given, in `log`, and the keys of its map of them.
pub record Warnings : Type 0 where
  pub warned : List String
  pub log : List String

abbrev pub no_warnings : Warnings
no_warnings = record { warned = []; log = [] }

-- warnOnce, with the text that the format makes.
unfoldable pub warn_once : String → Warnings → Warnings
warn_once key w =
    if any (λ k. k == key) w.warned
    then w
    else record { warned = key ∷ w.warned; log = w.log ++ key ∷ [] }

-- A text of several pieces.
abbrev pub concat : List String → String
concat [] = ""
concat (s ∷ ss) = String.◌++◌ s (concat ss)

-- The text about a name that two machines claim.
unfoldable pub collision_text : (String → String) → Collision → String
unfolding claim_label
collision_text quote c = concat (
    "proxy: published name "
    ∷ quote c.name
    ∷ " is claimed as "
    ∷ claim_label c.first
    ∷ " on machine "
    ∷ quote c.first.machine
    ∷ " and "
    ∷ claim_label c.second
    ∷ " on machine "
    ∷ quote c.second.machine
    ∷ "; first-match wins"
    ∷ [])

-- The warnings of a rebuild.
unfoldable pub warn_all : (String → String) → List Collision → Warnings → Warnings
warn_all quote [] w = w
warn_all quote (c ∷ cs) w = warn_all quote cs (warn_once (collision_text quote c) w)

-- How often a text was logged.
abbrev pub times : String → List String → ℕ
times key [] = 0
times key (k ∷ ks) = (if k == key then 1 else 0) + times key ks

times-append : (key : String) (a b : List String) → times key (a ++ b) ≡ times key a + times key b
times-append key [] b = omega arith
times-append key (k ∷ a) b = omega (arith, times-append key a b)

-- Each text is logged once if it is in the map, and else not.
abbrev Once : Warnings → Type 0
Once w = (key : String) → times key w.log ≡ (if any (λ k. k == key) w.warned then 1 else 0)

warn_once-Once : (text : String) (w : Warnings) → Once w → Once (warn_once text w)
unfolding warn_once
warn_once-Once text w once key =
    ground (arith, once key, once text, times-append key w.log (text ∷ []), eq_iff text key)

abbrev pub among : (String → String) → String → List Collision → Bool
among quote key cs = any (λ c. collision_text quote c == key) cs

warn_all-Once :
    (quote : String → String) (cs : List Collision) (w : Warnings)
    → Once w
    → Once (warn_all quote cs w)
unfolding warn_all
warn_all-Once quote [] w once = once
warn_all-Once quote (c ∷ cs) w once =
    warn_all-Once quote cs (warn_once (collision_text quote c) w)
      (warn_once-Once (collision_text quote c) w once)

warn_all-warned :
    (quote : String → String) (key : String) (cs : List Collision) (w : Warnings)
    → any (λ k. k == key) (warn_all quote cs w).warned
      ≡ (among quote key cs || any (λ k. k == key) w.warned)
unfolding warn_all warn_once
warn_all-warned quote key [] w = refl
warn_all-warned quote key (c ∷ cs) w = ground (
  arith,
  warn_all-warned quote key cs (warn_once (collision_text quote c) w),
  eq_iff (collision_text quote c) key,
)

-- However often the table is built, a warning is logged exactly once, and only for a collision that was found.
pub warn_all_lem :
    (quote : String → String) (key : String) (cs : List Collision)
    → times key (warn_all quote cs no_warnings).log ≡ (if among quote key cs then 1 else 0)
warn_all_lem quote key cs = ground (
  arith,
  warn_all-Once quote cs no_warnings (λ k. refl) key,
  warn_all-warned quote key cs no_warnings,
)
