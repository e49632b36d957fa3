-- ===== src/Manager/Checks.antt =====
-- manager/manager.go: which configurations ValidateModelConfig lets through.
use llm_server_manager.Base.{
  ◌≡◌, refl, sym, ◌∙◌, ◌≢◌, ◌↔◌, ◌⊎◌, inl, inr, Bool, true, false, eq_iff, Option, none, some,
  arith, ℕ, ◌*◌, ◌^◌, ◌≤◌, ◌<◌, ℤ, pos, negsuc, Float64, nan, neg_inf, neg_zero, finite, ltb_float,
  Bool-cases, leb_ℤ, if◌then◌else◌,
}
use llm_server_manager.Models.{ModelConfig, has_launch_cmd}
use llm_server_manager.Manager.Validate.{
  validate_config, check_ranges, out_of_range, presence_bad, repetition_bad, threads_not_positive,
  temperature_out_of_range, presence_penalty_out_of_range, repetition_penalty_negative,
}

-- Between 0 and 2, as a real number; the comparisons of the code also let NaN through.
abbrev pub ZeroToTwo : Float64 → Type 0
ZeroToTwo nan = Unit
ZeroToTwo neg_zero = Unit
ZeroToTwo (finite (pos n)) = n ≤ 2 * 2 ^ 1074
ZeroToTwo _ = ⊥

abbrev pub NotNegative : Float64 → Type 0
NotNegative neg_inf = ⊥
NotNegative (finite (negsuc n)) = ⊥
NotNegative _ = Unit

abbrev pub Given {ℓ} : {A : Type ℓ} → (A → Type 0) → Option A → Type 0
Given P none = Unit
Given P (some a) = P a

-- What the documentation promises of a model that is accepted.
pub record IsSound (c : ModelConfig) : Type 0 where
  pub named : c.name ≢ ""
  pub path : (has_launch_cmd c ≡ true) ⊎ (c.model_path ≢ "")
  pub threads : (has_launch_cmd c ≡ true) ⊎ ((n : ℕ) × (c.threads ≡ pos n) × (0 < n))
  pub temperature : (has_launch_cmd c ≡ true) ⊎ ZeroToTwo c.temperature
  pub presence : (has_launch_cmd c ≡ true) ⊎ Given ZeroToTwo c.presence_penalty
  pub repetition : (has_launch_cmd c ≡ true) ⊎ Given NotNegative c.repetition_penalty

out_of_range_iff : (x : Float64) → (out_of_range x ≡ false) ↔ ZeroToTwo x
unfolding ltb_float
out_of_range_iff nan = ground arith
out_of_range_iff (finite (pos n)) = ground arith
out_of_range_iff _ = ground arith

presence_iff : (o : Option Float64) → (presence_bad o ≡ false) ↔ Given ZeroToTwo o
presence_iff none = ground arith
presence_iff (some x) = out_of_range_iff x

repetition_iff : (o : Option Float64) → (repetition_bad o ≡ false) ↔ Given NotNegative o
unfolding ltb_float
repetition_iff none = ground arith
repetition_iff (some nan) = ground arith
repetition_iff (some (finite (pos n))) = ground arith
repetition_iff (some _) = ground arith

-- The ranges that are checked where there is no launch command.
record InRange (c : ModelConfig) : Type 0 where
  threads : (n : ℕ) × (c.threads ≡ pos n) × (0 < n)
  temperature : ZeroToTwo c.temperature
  presence : Given ZeroToTwo c.presence_penalty
  repetition : Given NotNegative c.repetition_penalty

threads_iff : (t : ℤ) → (leb_ℤ t (pos 0) ≡ false) ↔ ((n : ℕ) × (t ≡ pos n) × (0 < n))
threads_iff (pos n) = (λ h. (n, refl, ground arith), λ h. ground arith)
threads_iff (negsuc n) = (λ h. absurd (ground arith), λ h. ground arith)

-- The tests of a ladder that ends in success.
ladder :
    (a b d e : Bool)
    → ((if a
          then some threads_not_positive
          else if b
          then some temperature_out_of_range
          else if d
          then some presence_penalty_out_of_range
          else if e
          then some repetition_penalty_negative
          else none)
        ≡ none)
      ↔ ((a ≡ false) × (b ≡ false) × (d ≡ false) × (e ≡ false))
ladder a b d e = ground arith

check_ranges_tests :
    (c : ModelConfig)
    → (check_ranges c ≡ none) ↔ (
        (leb_ℤ c.threads (pos 0) ≡ false)
        × (out_of_range c.temperature ≡ false)
        × (presence_bad c.presence_penalty ≡ false)
        × (repetition_bad c.repetition_penalty ≡ false))
unfolding check_ranges
check_ranges_tests c =
    ladder (leb_ℤ c.threads (pos 0)) (out_of_range c.temperature) (presence_bad c.presence_penalty)
      (repetition_bad c.repetition_penalty)

check_ranges_iff : (c : ModelConfig) → (check_ranges c ≡ none) ↔ InRange c
check_ranges_iff c = (
  λ h.
      let (t, x, p, r) = (check_ranges_tests c).0 h in
      record {
        threads = (threads_iff c.threads).0 t;
        temperature = (out_of_range_iff c.temperature).0 x;
        presence = (presence_iff c.presence_penalty).0 p;
        repetition = (repetition_iff c.repetition_penalty).0 r;
      },
  λ s. (check_ranges_tests c).1 (
    (threads_iff c.threads).1 s.threads,
    (out_of_range_iff c.temperature).1 s.temperature,
    (presence_iff c.presence_penalty).1 s.presence,
    (repetition_iff c.repetition_penalty).1 s.repetition,
  ),
)

launched_valid :
    (c : ModelConfig) → has_launch_cmd c ≡ true → c.name ≢ "" → validate_config c ≡ none
unfolding validate_config
launched_valid c h n = ground (arith, eq_iff c.name "")

plain_valid :
    (c : ModelConfig)
    → has_launch_cmd c ≡ false
    → c.name ≢ ""
    → c.model_path ≢ ""
    → validate_config c ≡ check_ranges c
unfolding validate_config
plain_valid c h n p = ground (arith, eq_iff c.name "", eq_iff c.model_path "")

plain_named :
    (c : ModelConfig)
    → has_launch_cmd c ≡ false
    → validate_config c ≡ none
    → (c.name ≢ "") × (c.model_path ≢ "")
unfolding validate_config
plain_named c h e = (
  λ q. ground (arith, eq_iff c.name ""),
  λ q. ground (arith, eq_iff c.model_path "", eq_iff c.name ""),
)

not_launched :
    {A : Type 0} (c : ModelConfig) → has_launch_cmd c ≡ false → (has_launch_cmd c ≡ true) ⊎ A → A
not_launched c h (inl e) = cc
not_launched c h (inr a) = a

sound_plain :
    (c : ModelConfig) → has_launch_cmd c ≡ false → IsSound c → (c.model_path ≢ "") × InRange c
sound_plain c h s = (
  not_launched c h s.path,
  record {
    threads = not_launched c h s.threads;
    temperature = not_launched c h s.temperature;
    presence = not_launched c h s.presence;
    repetition = not_launched c h s.repetition;
  },
)

-- A model is accepted exactly if it is named and either has a launch command, or has a model path, a
-- positive number of threads, a temperature and a presence penalty between 0 and 2 and a repetition
-- penalty that is not negative, where the penalties are given at all. A NaN is accepted too.
pub validate_config_iff : (c : ModelConfig) → (validate_config c ≡ none) ↔ IsSound c
unfolding validate_config
validate_config_iff c = elim (Bool-cases (has_launch_cmd c)) [
  | inl h ↦ (
    λ e. record {
      named = λ q. ground (arith, eq_iff c.name "");
      path = inl h;
      threads = inl h;
      temperature = inl h;
      presence = inl h;
      repetition = inl h;
    },
    λ s. launched_valid c h s.named,
  )
  | inr h ↦ (
    λ e.
        let (n, p) = plain_named c h e in
        let r = (check_ranges_iff c).0 (sym (plain_valid c h n p) ∙ e) in
        record {
          named = n;
          path = inr p;
          threads = inr r.threads;
          temperature = inr r.temperature;
          presence = inr r.presence;
          repetition = inr r.repetition;
        },
    λ s. let (p, r) = sound_plain c h s in plain_valid c h s.named p ∙ (check_ranges_iff c).1 r,
  )
]
