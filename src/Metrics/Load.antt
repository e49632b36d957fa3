-- ===== src/Metrics/Load.antt =====
-- metrics/sampler_linux.go: what Usage reports is part of a whole.
use llm_server_manager.Base.{
  ◌≡◌, refl, ◌⊎◌, inl, inr, Option, none, some, ℕ, ◌-◌, ◌^◌, ◌≤◌, ◌<◌, eqb, ltb, ◌||◌, not, arith,
  if_cases,
}
use llm_server_manager.Metrics.Cpu.{Sampler, sub_64, rate, fresh_sample, usage, stale_after}

-- A reading that may follow another one: its idle time is part of its total, and, unless a counter fell,
-- the time that was not idle did not fall.
abbrev pub Follows : ℕ → ℕ → ℕ → ℕ → Type 0
Follows total idle t i = (i ≤ t) × (t < 2 ^ 64) × (total ≤ t → idle ≤ i → total - idle ≤ t - i)

module _ {F : Type 0} (no_load : F) (ratio : ℕ → ℕ → F) where
  abbrev pub IsPart : F → Type 0
  IsPart x = (x ≡ no_load) ⊎ ((b : ℕ) × (t : ℕ) × (x ≡ ratio b t) × (b ≤ t) × (0 < t))

  pub record IsSane (s : Sampler F) : Type 0 where
    pub idle_part : s.prev_idle ≤ s.prev_total
    pub small : s.prev_total < 2 ^ 64
    pub last_part : IsPart s.last_usage

  busy_part :
      (p q t i : ℕ)
      → q ≤ p
      → p ≤ t
      → q ≤ i
      → i ≤ t
      → t < 2 ^ 64
      → p - q ≤ t - i
      → sub_64 (sub_64 t p) (sub_64 i q) ≤ sub_64 t p
  busy_part p q t i a b c d e f = omega arith

  -- A sampler and what it reported.
  abbrev pub IsReported : Sampler F × F → Type 0
  IsReported (s, x) = IsSane s × IsPart x

  rate-IsReported :
      (t i now : ℕ) (s : Sampler F)
      → IsSane s
      → Follows s.prev_total s.prev_idle t i
      → s.prev_total ≤ t
      → s.prev_idle ≤ i
      → IsReported (rate no_load ratio t i now s)
  unfolding rate
  rate-IsReported t i now s sane f le_t le_i =
      if_cases IsReported (eqb (sub_64 t s.prev_total) 0)
        (λ _. (record { idle_part = f.0; small = f.1; last_part = sane.last_part }, sane.last_part))
        λ moved.
          let busy = sub_64 (sub_64 t s.prev_total) (sub_64 i s.prev_idle) in
          let le =
            busy_part s.prev_total s.prev_idle t i sane.idle_part le_t le_i f.0 f.1
              (f.2 le_t le_i) in
          let part : IsPart (ratio busy (sub_64 t s.prev_total)) =
            inr (busy, sub_64 t s.prev_total, refl, le, ground (arith, moved)) in
          (record { idle_part = f.0; small = f.1; last_part = part }, part)

  -- A reading, if there is one, that may follow another.
  abbrev pub MayFollow : ℕ → ℕ → Option (ℕ × ℕ) → Type 0
  MayFollow total idle none = Unit
  MayFollow total idle (some (t, i)) = Follows total idle t i

  fresh_sample-IsReported :
      (second : Option (ℕ × ℕ)) (later : ℕ) (s : Sampler F)
      → IsSane s
      → MayFollow s.prev_total s.prev_idle second
      → IsReported (fresh_sample no_load ratio second later s)
  unfolding fresh_sample
  fresh_sample-IsReported none later s sane f = (
    record { idle_part = sane.idle_part; small = sane.small; last_part = sane.last_part },
    inl refl,
  )
  fresh_sample-IsReported (some (t, i)) later s sane f =
      if_cases IsReported (ltb t s.prev_total || ltb i s.prev_idle)
        (λ _. (
          record { idle_part = sane.idle_part; small = sane.small; last_part = sane.last_part },
          inl refl,
        ))
        (λ up. rate-IsReported t i later s sane f (ground (arith, up)) (ground (arith, up)))

  -- Where the kernel's idle time is part of the total, and the rest of the total only falls together
  -- with a counter, what Usage reports is 0 or a part of a whole that is not 0, however old the sample
  -- before is and whichever reads fail; and the sampler stays fit for the next call.
  pub usage-IsReported :
      (first second : Option (ℕ × ℕ)) (now later : ℕ) (s : Sampler F)
      → IsSane s
      → MayFollow s.prev_total s.prev_idle first
      → ((t i : ℕ) → first ≡ some (t, i) → MayFollow t i second)
      → IsReported (usage no_load ratio first now second later s)
  unfolding usage
  usage-IsReported none second now later s sane f g = (sane, inl refl)
  usage-IsReported (some (t, i)) second now later s sane f g =
      if_cases IsReported (not s.primed || ltb t s.prev_total || ltb i s.prev_idle)
        (λ _. (record { idle_part = f.0; small = f.1; last_part = sane.last_part }, inl refl))
        λ up.
          if_cases IsReported (ltb stale_after (now - s.last_at))
            (λ _.
              fresh_sample-IsReported second later (record s { prev_total = t; prev_idle = i })
                (record { idle_part = f.0; small = f.1; last_part = sane.last_part }) (g t i refl))
            (λ _. rate-IsReported t i now s sane f (ground (arith, up)) (ground (arith, up)))
