-- ===== src/Manager/Remaining.antt =====
-- manager/manager.go: the steps that a launcher may still take, which no other event adds to.
use llm_server_manager.Base.{
  ◌≡◌, refl, inl, inr, Bool, some, String, ℕ, ◌≤◌, get_elem?, arith, if◌then◌else◌,
}
use llm_server_manager.Models.{ModelConfig}
use llm_server_manager.Manager.State.{reload_configs, begin_start}
use llm_server_manager.Manager.Launcher.{Launcher}
use llm_server_manager.Manager.World.{
  World, Stopper, cancelling, killing, forgetting, returned, Event, start, stop, poll, reload,
  launch, stopper, cancel, stopper_step, launcher_step, live_step,
}
use llm_server_manager.Manager.Cases.{
  start_model_cases, stop_model_cases, launch_cases, stopper_cases, launched,
}
use llm_server_manager.Manager.Budget.{
  begin_stop-max_retries, clear-max_retries, get_current_server-max_retries,
}
use llm_server_manager.Manager.Measure.{
  Progress, launcher_step-Progress, left, left-cancel, left-append, left-set,
}

-- The steps that launcher `i` may still take in a world.
abbrev pub remaining : ℕ → ℕ → World → ℕ
remaining max i w = if w.panicked then 0 else left max (get_elem? w.launchers i)

-- An event that raises neither this nor the limit on retries.
pub record NoMore (max i : ℕ) (w w' : World) : Type 0 where
  pub retries : w'.manager.max_retries ≡ w.manager.max_retries
  pub fewer : left max (get_elem? w'.launchers i) ≤ left max (get_elem? w.launchers i)

module _ (max i : ℕ) where
  same : (w : World) → NoMore max i w w
  same w = record { retries = refl; fewer = omega arith }

  launched-NoMore : (w : World) (c : ModelConfig) (now : ℕ) → NoMore max i w (launched w c now)
  unfolding begin_start
  launched-NoMore w c now = record {
    retries = refl;
    fewer = omega (
      arith,
      left-append max i c (cancel w.manager.cancel_func w.launchers),
      left-cancel max i w.manager.cancel_func w.launchers,
    );
  }

  stopper_step-NoMore : (j : ℕ) (s : Stopper) (w : World) → NoMore max i w (stopper_step j s w)
  unfolding stopper_step
  stopper_step-NoMore j (cancelling pid) w = record {
    retries = refl;
    fewer = omega (arith, left-cancel max i w.manager.cancel_func w.launchers);
  }
  stopper_step-NoMore j (killing pid) w = record { retries = ground arith; fewer = ground arith }
  stopper_step-NoMore j (forgetting pid) w = record {
    retries = clear-max_retries pid w.manager;
    fewer = omega arith;
  }
  stopper_step-NoMore j returned w = same w

  Progress-NoMore :
      (j : ℕ) (l : Launcher) (w w' : World)
      → get_elem? w.launchers j ≡ some l
      → Progress max j l w w'
      → NoMore max i w w'
  Progress-NoMore j l w w' e p = record {
    retries = p.retries;
    fewer = elim p.falls [
      | inl q ↦ rw q (omega arith)
      | inr (inl (x, q)) ↦ rw q (omega arith)
      | inr (inr (l', q, m)) ↦ rw q (left-set max i j l l' w.launchers e m)
    ];
  }

  pub live_step-NoMore :
      (missing : String → Bool) (w : World) (e : Event)
      → w.manager.max_retries ≡ max
      → NoMore max i w (live_step missing w e)
  unfolding live_step reload_configs
  live_step-NoMore missing w (start name now) r =
      start_model_cases (NoMore max i w) missing name now w (same w) λ c _. launched-NoMore w c now
  live_step-NoMore missing w (stop name) r =
      stop_model_cases (NoMore max i w) name w (same w) λ m pid q. record {
        retries = begin_stop-max_retries w.manager m name pid q;
        fewer = omega arith;
      }
  live_step-NoMore missing w poll r = record {
    retries = get_current_server-max_retries w.processes w.manager;
    fewer = omega arith;
  }
  live_step-NoMore missing w (reload configs) r = record { retries = refl; fewer = omega arith }
  live_step-NoMore missing w (launch j ch) r =
      launch_cases (NoMore max i w) missing j ch w (same w) λ l e.
        Progress-NoMore j l w (launcher_step j l l.stage ch w) e
          (launcher_step-Progress max j l w l.stage ch refl r)
  live_step-NoMore missing w (stopper j) r =
      stopper_cases (NoMore max i w) missing j w (same w) λ s _. stopper_step-NoMore j s w
