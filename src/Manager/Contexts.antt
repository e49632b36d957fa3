-- ===== src/Manager/Contexts.antt =====
-- manager/manager.go: at any time at most one launcher has a live context.
use llm_server_manager.Base.{
  ◌≡◌, refl, sym, Bool, true, false, Option, none, some, List, [], ◌∷◌, ◌++◌, String, ℕ, zero, suc,
  get_elem?, set, arith, if_cases, option_cases, subst, ap,
}
use llm_server_manager.Models.{ModelConfig}
use llm_server_manager.Manager.State.{new, begin_start, claim, reload_configs}
use llm_server_manager.Manager.Launcher.{
  Stage, entered, spawning, spawned, claiming, waiting, exited, restarting, sleeping, clearing,
  finished, Launcher, new_launcher, restart_delay,
}
use llm_server_manager.Manager.World.{
  World, Stopper, cancelling, killing, forgetting, returned, boot, Choice, start_fails,
  start_returns, wait_returns, Event, start, stop, poll, reload, launch, stopper, cancel,
  stopper_step, launcher_step, live_step, run,
}
use llm_server_manager.Manager.Cases.{
  start_model_cases, stop_model_cases, launch_cases, stopper_cases, run_inv, launched,
}
use llm_server_manager.Manager.OneLive.{
  AllCancelled, OneLive, OneLive-cast, OneLive-set, cancel-AllCancelled, length-cancel,
  OneLive-of_AllCancelled, OneLive-append, Guarded, begin_stop-cancel_func, clear-cancel_func,
  mark_restarting-cancel_func, get_current_server-cancel_func, claim-cancel_func,
  after_exit-cancelled,
}

-- A launcher's step never changes which contexts are cancelled.
launcher_step-Guarded :
    (i : ℕ) (l : Launcher) (s : Stage) (ch : Choice) (w : World)
    → get_elem? w.launchers i ≡ some l
    → Guarded w
    → Guarded (launcher_step i l s ch w)
unfolding launcher_step
launcher_step-Guarded i l entered ch w e h =
    option_cases Guarded w.manager.server (λ _. h)
      λ s _. OneLive-set w.manager.cancel_func w.launchers i l _ e refl h
launcher_step-Guarded i l spawning start_fails w e h =
    OneLive-set w.manager.cancel_func w.launchers i l _ e refl h
launcher_step-Guarded i l spawning (start_returns pid) w e h =
    if_cases Guarded _ (λ _. OneLive-set w.manager.cancel_func w.launchers i l _ e refl h) (λ _. h)
launcher_step-Guarded i l spawning _ w e h = h
launcher_step-Guarded i l (spawned pid) ch w e h =
    if_cases Guarded l.cancelled (λ _. OneLive-set w.manager.cancel_func w.launchers i l _ e refl h)
      (λ _. OneLive-set w.manager.cancel_func w.launchers i l _ e refl h)
launcher_step-Guarded i l (claiming pid) ch w e h =
    option_cases Guarded (claim pid l.registered l.crash_count w.manager)
      (λ _. OneLive-set w.manager.cancel_func w.launchers i l _ e refl h)
      λ m q.
        OneLive-cast (set w.launchers i (record l { stage = waiting pid; registered = pid }))
          (claim-cancel_func pid l.registered l.crash_count w.manager m q)
          (OneLive-set w.manager.cancel_func w.launchers i l _ e refl h)
launcher_step-Guarded i l (waiting pid) (wait_returns failed) w e h =
    OneLive-set w.manager.cancel_func w.launchers i l _ e refl h
launcher_step-Guarded i l (waiting pid) _ w e h = h
launcher_step-Guarded i l (exited pid failed) ch w e h =
    OneLive-set w.manager.cancel_func w.launchers i l _ e
      (after_exit-cancelled w.manager.max_retries pid failed l) h
launcher_step-Guarded i l (restarting pid) ch w e h =
    OneLive-cast (set w.launchers i (record l { stage = sleeping (restart_delay l.crash_count) }))
      (mark_restarting-cancel_func pid w.manager)
      (OneLive-set w.manager.cancel_func w.launchers i l _ e refl h)
launcher_step-Guarded i l (clearing pid) ch w e h =
    OneLive-cast (set w.launchers i (record l { stage = finished }))
      (clear-cancel_func pid w.manager)
      (OneLive-set w.manager.cancel_func w.launchers i l _ e refl h)
launcher_step-Guarded i l finished ch w e h = h
launcher_step-Guarded i l _ ch w e h = OneLive-set w.manager.cancel_func w.launchers i l _ e refl h

stopper_step-Guarded : (i : ℕ) (s : Stopper) (w : World) → Guarded w → Guarded (stopper_step i s w)
unfolding stopper_step
stopper_step-Guarded i (cancelling pid) w h =
    OneLive-of_AllCancelled w.manager.cancel_func (cancel w.manager.cancel_func w.launchers)
      (cancel-AllCancelled w.manager.cancel_func w.launchers h)
stopper_step-Guarded i (killing pid) w h =
    if_cases (λ v. Guarded (record v { stoppers = set v.stoppers i (forgetting pid) })) _ (λ _. h)
      (λ _. h)
stopper_step-Guarded i (forgetting pid) w h =
    OneLive-cast w.launchers (clear-cancel_func pid w.manager) h
stopper_step-Guarded i returned w h = h

launched-Guarded : (w : World) (c : ModelConfig) (now : ℕ) → Guarded w → Guarded (launched w c now)
unfolding begin_start
launched-Guarded w c now h =
    OneLive-cast (cancel w.manager.cancel_func w.launchers ++ new_launcher c ∷ [])
      (ap some (sym (length-cancel w.manager.cancel_func w.launchers)))
      (OneLive-append (cancel w.manager.cancel_func w.launchers) (new_launcher c)
        (cancel-AllCancelled w.manager.cancel_func w.launchers h))

live_step-Guarded :
    (missing : String → Bool) (w : World) (e : Event) → Guarded w → Guarded (live_step missing w e)
unfolding live_step
live_step-Guarded missing w (start name now) h =
    start_model_cases Guarded missing name now w h λ c _. launched-Guarded w c now h
live_step-Guarded missing w (stop name) h =
    stop_model_cases Guarded name w h
      λ m pid q. OneLive-cast w.launchers (begin_stop-cancel_func w.manager m name pid q) h
live_step-Guarded missing w poll h =
    OneLive-cast w.launchers (get_current_server-cancel_func w.processes w.manager) h
live_step-Guarded missing w (reload configs) h = unfold reload_configs in h
live_step-Guarded missing w (launch i ch) h =
    launch_cases Guarded missing i ch w h λ l e. launcher_step-Guarded i l l.stage ch w e h
live_step-Guarded missing w (stopper i) h =
    stopper_cases Guarded missing i w h λ s _. stopper_step-Guarded i s w h

AllCancelled-not_live :
    (ls : List Launcher) (i : ℕ) (l : Launcher)
    → AllCancelled ls
    → get_elem? ls i ≡ some l
    → l.cancelled ≡ true
AllCancelled-not_live [] i l h e = cc
AllCancelled-not_live (x ∷ ls) zero l h e =
    let same : x ≡ l = cc in subst {A = Launcher} (λ y. y.cancelled ≡ true) same h.0
AllCancelled-not_live (x ∷ ls) (suc i) l h e = AllCancelled-not_live ls i l h.1 e

OneLive-live :
    (c : Option ℕ) (ls : List Launcher) (i : ℕ) (l : Launcher)
    → OneLive c ls
    → get_elem? ls i ≡ some l
    → l.cancelled ≡ false
    → c ≡ some i
OneLive-live none ls i l h e live = cc (AllCancelled-not_live ls i l h e)
OneLive-live (some j) [] i l h e live = cc
OneLive-live (some zero) (x ∷ ls) zero l h e live = refl
OneLive-live (some zero) (x ∷ ls) (suc i) l h e live = cc (AllCancelled-not_live ls i l h e)
OneLive-live (some (suc j)) (x ∷ ls) zero l h e live = ground arith
OneLive-live (some (suc j)) (x ∷ ls) (suc i) l h e live =
    ground (arith, OneLive-live (some j) ls i l h.1 e live)

boot-Guarded :
    (configs : List (String × ModelConfig)) (retries : ℕ) → Guarded (boot (new configs retries))
unfolding boot new
boot-Guarded configs retries = tt

-- In every reachable state, a launcher whose context is not cancelled is the one that the manager's
-- cancel function belongs to: so two launchers with live contexts are one and the same.
pub run-one_live :
    (missing : String → Bool) (configs : List (String × ModelConfig)) (retries : ℕ)
    (es : List Event) (i j : ℕ) (l k : Launcher)
    → let w = run missing (boot (new configs retries)) es in
      get_elem? w.launchers i ≡ some l
      → get_elem? w.launchers j ≡ some k
      → l.cancelled ≡ false
      → k.cancelled ≡ false
      → (w.manager.cancel_func ≡ some i) × (i ≡ j)
run-one_live missing configs retries es i j l k at_i at_j live_i live_j =
    let w = run missing (boot (new configs retries)) es in
    let h : Guarded w =
      run_inv Guarded missing (live_step-Guarded missing) (boot (new configs retries)) es
        (boot-Guarded configs retries) in
    let mine = OneLive-live w.manager.cancel_func w.launchers i l h at_i live_i in
    let other = OneLive-live w.manager.cancel_func w.launchers j k h at_j live_j in
    (mine, ground arith)
