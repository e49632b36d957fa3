-- ===== src/Manager/Termination.antt =====
-- manager/manager.go: every launcher that StartModel starts comes to its end, whatever else happens.
use llm_server_manager.Base.{
  ◌≡◌, refl, ap, subst, sym, ◌∙◌, ◌≢◌, ◌⊎◌, inl, inr, Bool, true, false, Option, none, some, List,
  [], ◌∷◌, String, ℕ, suc, ◌+◌, ◌*◌, ◌<◌, ◌≤◌, get_elem?, arith, Bool-cases, if◌then◌else◌,
}
use llm_server_manager.Models.{ModelConfig}
use llm_server_manager.Manager.State.{new}
use llm_server_manager.Manager.Launcher.{Launcher, finished}
use llm_server_manager.Manager.World.{World, boot, Choice, Event, launch, live_step, step, run}
use llm_server_manager.Manager.Unstuck.{launcher_moves}
use llm_server_manager.Manager.Cases.{launch_cases}
use llm_server_manager.Manager.Measure.{launcher_step-Progress, left, left-set_self}
use llm_server_manager.Manager.Remaining.{remaining, live_step-NoMore}

-- A run in which launcher `i` takes `n` steps that change something. It does not count what leaves the
-- world as it is: a step of a launcher that waits for the operating system, or that has ended.
pub data Moves (missing : String → Bool) (i : ℕ) : World → List Event → ℕ → Type 0 where
  done : (w : World) → Moves missing i w [] 0
  still :
      (w : World) (e : Event) (es : List Event) (n : ℕ)
      → Moves missing i (step missing w e) es n
      → Moves missing i w (e ∷ es) n
  moves :
      (w : World) (ch : Choice) (es : List Event) (n : ℕ)
      → step missing w (launch i ch) ≢ w
      → Moves missing i (step missing w (launch i ch)) es n
      → Moves missing i w (launch i ch ∷ es) (suc n)

module _ (max i : ℕ) where
  left_pos : (o : Option Launcher) → 0 < left max o
  left_pos none = omega arith
  left_pos (some l) = omega arith

  -- What a step of launcher `i` that changes something leaves: one step less, or nothing after a panic.
  abbrev Fewer : World → World → Type 0
  Fewer w w' =
      (w' ≡ w)
      ⊎ ((w'.panicked ≡ true)
          ⊎ (left max (get_elem? w'.launchers i) < left max (get_elem? w.launchers i)))

  launch-Fewer :
      (missing : String → Bool) (ch : Choice) (w : World)
      → w.manager.max_retries ≡ max
      → Fewer w (live_step missing w (launch i ch))
  launch-Fewer missing ch w r = launch_cases (Fewer w) missing i ch w (inl refl) λ l e.
      elim (launcher_step-Progress max i l w l.stage ch refl r).falls [
        | inl q ↦ inl q
        | inr (inl (x, q)) ↦ inr (inl x)
        | inr (inr (l', q, m)) ↦ inr (inr (rw q (left-set_self max i l l' w.launchers e m)))
      ]

  remaining-le : (w : World) → remaining max i w ≤ left max (get_elem? w.launchers i)
  remaining-le w = ground arith

  remaining_live :
      (w : World) → w.panicked ≡ false → remaining max i w ≡ left max (get_elem? w.launchers i)
  remaining_live w n = ap (λ (b : Bool). if b then 0 else left max (get_elem? w.launchers i)) n

  remaining_dead : (w : World) → w.panicked ≡ true → remaining max i w ≡ 0
  remaining_dead w y = ap (λ (b : Bool). if b then 0 else left max (get_elem? w.launchers i)) y

  step_dead :
      (missing : String → Bool) (w : World) (e : Event) → w.panicked ≡ true → step missing w e ≡ w
  unfolding step
  step_dead missing w e y = ap (λ (b : Bool). if b then w else live_step missing w e) y

  step_live :
      (missing : String → Bool) (w : World) (e : Event)
      → w.panicked ≡ false
      → step missing w e ≡ live_step missing w e
  unfolding step
  step_live missing w e n = ap (λ (b : Bool). if b then w else live_step missing w e) n

  -- An event keeps the limit and adds no steps.
  Kept : World → World → Type 0
  Kept w w' = (w'.manager.max_retries ≡ max) × (remaining max i w' ≤ remaining max i w)

  step-Kept :
      (missing : String → Bool) (w : World) (e : Event)
      → w.manager.max_retries ≡ max
      → Kept w (step missing w e)
  unfolding Kept
  step-Kept missing w e r = elim (Bool-cases w.panicked) [
    | inl y ↦ subst (Kept w) (sym (step_dead missing w e y)) (r, omega arith)
    | inr n ↦
        let m = live_step-NoMore max i missing w e r in
        subst (Kept w) (sym (step_live missing w e n)) (
          m.retries ∙ r,
          omega (arith, m.fewer, remaining-le (live_step missing w e), remaining_live w n),
        )
  ]

  launch-remaining :
      (missing : String → Bool) (ch : Choice) (w : World)
      → w.manager.max_retries ≡ max
      → step missing w (launch i ch) ≢ w
      → remaining max i (step missing w (launch i ch)) < remaining max i w
  launch-remaining missing ch w r ne = elim (Bool-cases w.panicked) [
    | inl y ↦ absurd (ne (step_dead missing w (launch i ch) y))
    | inr n ↦
        let same_step = step_live missing w (launch i ch) n in
        let v = live_step missing w (launch i ch) in
        subst (λ u. remaining max i u < remaining max i w) (sym same_step)
          (elim (launch-Fewer missing ch w r) [
            | inl q ↦ absurd (ne (same_step ∙ q))
            | inr (inl x) ↦
                omega (
                  arith,
                  remaining_dead v x,
                  remaining_live w n,
                  left_pos (get_elem? w.launchers i),
                )
            | inr (inr lt) ↦ omega (arith, remaining-le v, remaining_live w n)
          ])
  ]

  -- Launcher `i` makes no more steps than are left.
  Moves-le :
      (missing : String → Bool) {w : World} {es : List Event} {n : ℕ}
      → w.manager.max_retries ≡ max
      → Moves missing i w es n
      → n ≤ remaining max i w
  unfolding Kept
  Moves-le missing r (done _) = omega arith
  Moves-le missing r (still w e es n m) =
      let k = step-Kept missing w e r in omega (arith, Moves-le missing k.0 m, k.1)
  Moves-le missing r (moves w ch es n ne m) =
      let k = step-Kept missing w (launch i ch) r in
      omega (arith, Moves-le missing k.0 m, launch-remaining missing ch w r ne)

left_of_boot :
    (configs : List (String × ModelConfig)) (retries i : ℕ)
    → remaining retries i (boot (new configs retries)) ≡ 10 * retries + 22
unfolding boot new
left_of_boot configs retries i = refl

boot_retries :
    (configs : List (String × ModelConfig)) (retries : ℕ)
    → (boot (new configs retries)).manager.max_retries ≡ retries
unfolding boot new
boot_retries configs retries = refl

-- Whatever calls, reloads and other launchers' steps come between, a launcher takes at most
-- `10 * retries + 22` steps that change anything; and at every moment, in a program that has not
-- panicked, one that has not ended has such a step, for some answer of the operating system. So it
-- ends, unless the operating system never answers.
pub launcher_terminates :
    (missing : String → Bool) (configs : List (String × ModelConfig)) (retries i n : ℕ)
    (es : List Event)
    → Moves missing i (boot (new configs retries)) es n
    → let w = run missing (boot (new configs retries)) es in
      (n ≤ 10 * retries + 22)
      × ((l : Launcher)
          → get_elem? w.launchers i ≡ some l
          → l.stage ≢ finished
          → w.panicked ≡ false
          → (ch : Choice) × (step missing w (launch i ch) ≢ w))
launcher_terminates missing configs retries i n es m =
    let le = Moves-le retries i missing (boot_retries configs retries) m in
    (
      omega (arith, le, left_of_boot configs retries i),
      λ l at. launcher_moves missing i l (run missing (boot (new configs retries)) es) at,
    )
