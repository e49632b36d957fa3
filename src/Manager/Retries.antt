-- ===== src/Manager/Retries.antt =====
-- manager/manager.go: how often a launcher starts its process, and how long it waits in between.
use llm_server_manager.Base.{
  ◌≡◌, refl, sym, Bool, Option, none, some, List, [], ◌∷◌, String, ℕ, ◌+◌, ◌<◌, ◌≤◌, get_elem?, set,
  All, All-append, All-set, All-modify, All-get_elem?, arith, if_cases, option_cases, subst, ltb,
  ◌&&◌, not,
}
use llm_server_manager.Models.{ModelConfig}
use llm_server_manager.Manager.State.{
  Manager, new, begin_start, clear_if_pid_matches, claim, mark_restarting, reload_configs,
  is_process_alive,
}
use llm_server_manager.Manager.Launcher.{
  Stage, entered, looping, spawning, spawned, claiming, waiting, exited, restarting, sleeping,
  clearing, finished, Launcher, new_launcher, after_exit, restart_delay,
}
use llm_server_manager.Manager.World.{
  World, Stopper, cancelling, killing, forgetting, returned, boot, Choice, start_fails,
  start_returns, wait_returns, Event, start, stop, poll, reload, launch, stopper, cancel,
  stopper_step, launcher_step, live_step, run,
}
use llm_server_manager.Manager.Cases.{
  start_model_cases, stop_model_cases, launch_cases, stopper_cases, run_inv, launched,
}
use llm_server_manager.Manager.Budget.{
  Budget, WithinBudget, Bounded, begin_stop-max_retries, clear-max_retries,
  mark_restarting-max_retries, get_current_server-max_retries, claim-max_retries,
  after_exit-WithinBudget,
}

module _ (max : ℕ) where
  cancel-Bounded :
      (c : Option ℕ) (ls : List Launcher)
      → All (WithinBudget max) ls
      → All (WithinBudget max) (cancel c ls)
  unfolding cancel
  cancel-Bounded none ls h = h
  cancel-Bounded (some i) ls h = All-modify (WithinBudget max) i _ ls (λ l k. k) h

  Bounded-at :
      (i : ℕ) (l : Launcher) (m : Manager) (w : World)
      → m.max_retries ≡ w.manager.max_retries
      → WithinBudget max l
      → Bounded max w
      → Bounded max (record w { manager = m; launchers = set w.launchers i l })
  Bounded-at i l m w e k b = record {
    retries = ground arith;
    launchers = All-set (WithinBudget max) w.launchers i l b.launchers k;
  }

  launcher_step-Bounded :
      (i : ℕ) (l : Launcher) (s : Stage) (ch : Choice) (w : World)
      → Budget max s l.crash_count l.starts
      → WithinBudget max l
      → Bounded max w
      → Bounded max (launcher_step i l s ch w)
  unfolding launcher_step
  launcher_step-Bounded i l entered ch w k own b =
      option_cases (Bounded max) w.manager.server
        (λ _. record { retries = b.retries; launchers = b.launchers })
        λ s _. record {
          retries = b.retries;
          launchers =
              All-set (WithinBudget max) w.launchers i (record l { stage = looping }) b.launchers k;
        }
  launcher_step-Bounded i l looping ch w k own b =
      if_cases
        (λ s. Bounded max (record w { launchers = set w.launchers i (record l { stage = s }) }))
        l.cancelled
        (λ _.
          Bounded-at i (record l { stage = clearing l.registered }) w.manager w refl (omega arith)
            b)
        (λ _. Bounded-at i (record l { stage = spawning }) w.manager w refl k b)
  launcher_step-Bounded i l spawning start_fails w k own b =
      Bounded-at i (record l { stage = clearing l.registered }) w.manager w refl (omega arith) b
  launcher_step-Bounded i l spawning (start_returns pid) w k own b =
      if_cases (Bounded max) (ltb 0 pid && not (is_process_alive w.processes pid))
        (λ _. record {
          retries = b.retries;
          launchers =
              All-set (WithinBudget max) w.launchers i
                (record l { stage = spawned pid; starts = l.starts + 1 }) b.launchers (omega arith);
        })
        (λ _. b)
  launcher_step-Bounded i l spawning _ w k own b = b
  launcher_step-Bounded i l (spawned pid) ch w k own b =
      if_cases (Bounded max) l.cancelled
        (λ _. record {
          retries = b.retries;
          launchers =
              All-set (WithinBudget max) w.launchers i (record l { stage = clearing pid })
                b.launchers (omega arith);
        })
        (λ _. Bounded-at i (record l { stage = claiming pid }) w.manager w refl k b)
  launcher_step-Bounded i l (claiming pid) ch w k own b =
      option_cases (Bounded max) (claim pid l.registered l.crash_count w.manager)
        (λ _. record {
          retries = b.retries;
          launchers =
              All-set (WithinBudget max) w.launchers i (record l { stage = finished }) b.launchers
                (omega arith);
        })
        λ m e.
          Bounded-at i (record l { stage = waiting pid; registered = pid }) m w
            (claim-max_retries pid l.registered l.crash_count w.manager m e) k b
  launcher_step-Bounded i l (waiting pid) (wait_returns failed) w k own b = record {
    retries = b.retries;
    launchers =
        All-set (WithinBudget max) w.launchers i (record l { stage = exited pid failed })
          b.launchers k;
  }
  launcher_step-Bounded i l (waiting pid) _ w k own b = b
  launcher_step-Bounded i l (exited pid failed) ch w k own b =
      Bounded-at i (after_exit w.manager.max_retries pid failed l) w.manager w refl
        (subst (λ n. WithinBudget max (after_exit n pid failed l)) (sym b.retries)
          (after_exit-WithinBudget max pid failed l k))
        b
  launcher_step-Bounded i l (restarting pid) ch w k own b =
      Bounded-at i (record l { stage = sleeping (restart_delay l.crash_count) })
        (mark_restarting pid w.manager) w (mark_restarting-max_retries pid w.manager)
        (k.0, refl, k.1, k.2) b
  launcher_step-Bounded i l (sleeping n) ch w k own b =
      Bounded-at i (record l { stage = looping }) w.manager w refl (k.0, k.3) b
  launcher_step-Bounded i l (clearing pid) ch w k own b =
      Bounded-at i (record l { stage = finished }) (clear_if_pid_matches pid w.manager) w
        (clear-max_retries pid w.manager) k b
  launcher_step-Bounded i l finished ch w k own b = b

  stopper_step-Bounded :
      (i : ℕ) (s : Stopper) (w : World) → Bounded max w → Bounded max (stopper_step i s w)
  unfolding stopper_step
  stopper_step-Bounded i (cancelling pid) w b = record {
    retries = b.retries;
    launchers = cancel-Bounded w.manager.cancel_func w.launchers b.launchers;
  }
  stopper_step-Bounded i (killing pid) w b =
      if_cases (λ v. Bounded max (record v { stoppers = set v.stoppers i (forgetting pid) })) _
        (λ _. record { retries = b.retries; launchers = b.launchers })
        (λ _. record { retries = b.retries; launchers = b.launchers })
  stopper_step-Bounded i (forgetting pid) w b = record {
    retries = ground (arith, clear-max_retries pid w.manager, b.retries);
    launchers = b.launchers;
  }
  stopper_step-Bounded i returned w b = b

  launched-Bounded :
      (w : World) (c : ModelConfig) (now : ℕ) → Bounded max w → Bounded max (launched w c now)
  unfolding begin_start new_launcher
  launched-Bounded w c now b = record {
    retries = b.retries;
    launchers =
        All-append (WithinBudget max) (cancel w.manager.cancel_func w.launchers)
          (new_launcher c ∷ []) (cancel-Bounded w.manager.cancel_func w.launchers b.launchers)
          (omega arith);
  }

  live_step-Bounded :
      (missing : String → Bool) (w : World) (e : Event)
      → Bounded max w
      → Bounded max (live_step missing w e)
  unfolding live_step reload_configs
  live_step-Bounded missing w (start name now) b =
      start_model_cases (Bounded max) missing name now w b λ c _. launched-Bounded w c now b
  live_step-Bounded missing w (stop name) b = stop_model_cases (Bounded max) name w b λ m pid q.
      record {
        retries = ground (arith, begin_stop-max_retries w.manager m name pid q, b.retries);
        launchers = b.launchers;
      }
  live_step-Bounded missing w poll b = record {
    retries = ground (arith, get_current_server-max_retries w.processes w.manager, b.retries);
    launchers = b.launchers;
  }
  live_step-Bounded missing w (reload configs) b = record {
    retries = b.retries;
    launchers = b.launchers;
  }
  live_step-Bounded missing w (launch i ch) b = launch_cases (Bounded max) missing i ch w b λ l e.
      let k = All-get_elem? (WithinBudget max) w.launchers i b.launchers e in
      launcher_step-Bounded i l l.stage ch w k k b
  live_step-Bounded missing w (stopper i) b =
      stopper_cases (Bounded max) missing i w b λ s _. stopper_step-Bounded i s w b

restart_delay_bounds : (n : ℕ) → 0 < n → (0 < restart_delay n) × (restart_delay n ≤ 10)
unfolding restart_delay
restart_delay_bounds n h = ground arith

-- What the retry limit promises of one launcher.
abbrev pub KeepsLimit : ℕ → Launcher → Type 0
KeepsLimit max l =
    (l.starts ≤ max + 1) × ((n : ℕ) → l.stage ≡ sleeping n → (0 < n) × (n ≤ 10) × (n ≤ max))

KeepsLimit-of_Budget :
    (max : ℕ) (l : Launcher) (s : Stage)
    → l.stage ≡ s
    → Budget max s l.crash_count l.starts
    → KeepsLimit max l
unfolding restart_delay
KeepsLimit-of_Budget max l (sleeping m) e k = (omega arith, λ n q. ground arith)
KeepsLimit-of_Budget max l _ e k = (omega arith, λ n q. cc)

boot-Bounded :
    (configs : List (String × ModelConfig)) (retries : ℕ)
    → Bounded retries (boot (new configs retries))
unfolding boot new
boot-Bounded configs retries = record { retries = refl; launchers = tt }

-- In every reachable state each launcher has started its process at most `retries + 1` times, and
-- where it sleeps before a restart it sleeps at least one second, at most ten, and at most as many
-- as there are retries.
pub run-KeepsLimit :
    (missing : String → Bool) (configs : List (String × ModelConfig)) (retries : ℕ)
    (es : List Event) (i : ℕ) (l : Launcher)
    → get_elem? (run missing (boot (new configs retries)) es).launchers i ≡ some l
    → KeepsLimit retries l
run-KeepsLimit missing configs retries es i l e =
    let b =
      run_inv (Bounded retries) missing (live_step-Bounded retries missing)
        (boot (new configs retries)) es (boot-Bounded configs retries) in
    KeepsLimit-of_Budget retries l l.stage refl (
      All-get_elem? (WithinBudget retries) (run missing (boot (new configs retries)) es).launchers i
        b.launchers e)
