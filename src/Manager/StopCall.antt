-- ===== src/Manager/StopCall.antt =====
-- manager/manager.go: StartModel on every branch, and the steps of a call of StopModel that is not
-- interrupted.
use llm_server_manager.Base.{
  ◌≡◌, refl, sym, ap, inl, inr, ◌↔◌, Bool, false, Option, none, some, List, [], ◌∷◌, ◌++◌, String,
  ℕ, ltb, lookup, length, get_elem?, get_elem?-last, set-last, arith, subst, ◌∙◌, if◌then◌else◌,
  Sum-cases,
}
use llm_server_manager.Models.{ModelConfig, starting}
use llm_server_manager.Manager.Validate.{validate_start}
use llm_server_manager.Manager.State.{
  Manager, ManagerError, admit_start, begin_start, begin_stop, clear_if_pid_matches,
}
use llm_server_manager.Manager.Launcher.{Launcher, new_launcher}
use llm_server_manager.Manager.OneLive.{length-cancel}
use llm_server_manager.Manager.World.{
  World, Stopper, cancelling, killing, forgetting, returned, Event, stop, stopper, cancel,
  start_model, stop_model, stopper_step, live_step, step, run,
}

pub admit_start_iff :
    (missing : String → Bool) (m : Manager) (name : String) (c : ModelConfig)
    → (admit_start missing m name ≡ inr c)
      ↔ ((m.server ≡ none) × (lookup name m.configs ≡ some c) × (validate_start missing c ≡ none))
unfolding admit_start
admit_start_iff missing m name c = (λ e. ground arith, λ h. ground arith)

-- What a successful StartModel leaves behind.
pub record Started (w w' : World) (c : ModelConfig) (now : ℕ) : Type 0 where
  pub server :
      w'.manager.server
      ≡ some (record {
        model_config = c;
        pid = 0;
        status = starting;
        start_time = now;
        crash_count = 0;
      })
  pub context : w'.manager.cancel_func ≡ some (length w.launchers)
  pub launcher : get_elem? w'.launchers (length w.launchers) ≡ some (new_launcher c)
  pub configs : w'.manager.configs ≡ w.manager.configs

pub get_elem?-cancelled_last :
    (c : Option ℕ) (ls : List Launcher) (l : Launcher)
    → get_elem? (cancel c ls ++ l ∷ []) (length ls) ≡ some l
get_elem?-cancelled_last c ls l =
    subst (λ n. get_elem? (cancel c ls ++ l ∷ []) n ≡ some l) (length-cancel c ls)
      (get_elem?-last (cancel c ls) l)

-- No server record is there, the name has the configuration `c`, and that passes the checks.
abbrev pub Startable : (String → Bool) → Manager → String → ModelConfig → Type 0
Startable missing m name c =
    (m.server ≡ none) × (lookup name m.configs ≡ some c) × (validate_start missing c ≡ none)

-- StartModel returns without an error exactly if no server record is there, whatever its status, the
-- name is configured and its configuration passes the checks. Then the server is recorded as starting
-- with PID 0, under a new context. In every other case the call is an error and changes nothing.
pub start_model_lem :
    (missing : String → Bool) (name : String) (now : ℕ) (w : World)
    → ((c : ModelConfig)
        → Startable missing w.manager name c
        → ((start_model missing name now w).1 ≡ none)
          × Started w (start_model missing name now w).0 c now)
      × (((c : ModelConfig) → ¬ (Startable missing w.manager name c))
          → (e : ManagerError) × (start_model missing name now w ≡ (w, some e)))
unfolding start_model begin_start
start_model_lem missing name now w = (
  λ c h.
      let q = (admit_start_iff missing w.manager name c).1 h in
      (
        ground arith,
        record {
          server = ground arith;
          context = ground arith;
          launcher =
              ground (
                arith,
                get_elem?-cancelled_last w.manager.cancel_func w.launchers (new_launcher c),
              );
          configs = ground arith;
        },
      ),
  λ none_startable. elim (Sum-cases (admit_start missing w.manager name)) [
    | inl (e, q) ↦ (e, ground arith)
    | inr (c, q) ↦ absurd (none_startable c ((admit_start_iff missing w.manager name c).0 q))
  ],
)

-- The three steps that are left of the newest call of StopModel.
abbrev pub rest_of_stop : ℕ → List Event
rest_of_stop k = stopper k ∷ stopper k ∷ stopper k ∷ []

pub stopper_at :
    (missing : String → Bool) (w : World) (ss : List Stopper) (s : Stopper)
    → w.panicked ≡ false
    → w.stoppers ≡ ss ++ s ∷ []
    → step missing w (stopper (length ss)) ≡ stopper_step (length ss) s w
unfolding step live_step
stopper_at missing w ss s p e =
    ground (arith, subst (λ t. get_elem? t (length ss) ≡ some s) (sym e) (get_elem?-last ss s))

-- The world while a call of StopModel stands at `s`, as its steps leave it.
abbrev pub stopping_at : World → Manager → List Launcher → List ℕ → Stopper → World
stopping_at w m ls signals s = record w {
  manager = m;
  launchers = ls;
  signalled = signals;
  stoppers = w.stoppers ++ s ∷ [];
}

abbrev pub killed_too : ℕ → List ℕ → List ℕ
killed_too pid signals = if ltb 0 pid then pid ∷ signals else signals

module _ (missing : String → Bool) (w : World) (alive : w.panicked ≡ false) where
  stop_cancels :
      (m : Manager) (ls : List Launcher) (pid : ℕ)
      → step missing (stopping_at w m ls w.signalled (cancelling pid)) (stopper (length w.stoppers))
        ≡ stopping_at w m (cancel m.cancel_func ls) w.signalled (killing pid)
  unfolding stopper_step
  stop_cancels m ls pid =
      stopper_at missing (stopping_at w m ls w.signalled (cancelling pid)) w.stoppers
        (cancelling pid) alive refl
      ∙ ap
          (λ t. record w {
            manager = m;
            launchers = cancel m.cancel_func ls;
            signalled = w.signalled;
            stoppers = t;
          })
          (set-last w.stoppers (cancelling pid) (killing pid))

  stop_kills :
      (m : Manager) (ls : List Launcher) (pid : ℕ)
      → step missing (stopping_at w m ls w.signalled (killing pid)) (stopper (length w.stoppers))
        ≡ stopping_at w m ls (killed_too pid w.signalled) (forgetting pid)
  unfolding stopper_step
  stop_kills m ls pid =
      stopper_at missing (stopping_at w m ls w.signalled (killing pid)) w.stoppers (killing pid)
        alive refl
      ∙ ground (arith, set-last w.stoppers (killing pid) (forgetting pid))

  stop_forgets :
      (m : Manager) (ls : List Launcher) (pid : ℕ) (signals : List ℕ)
      → step missing (stopping_at w m ls signals (forgetting pid)) (stopper (length w.stoppers))
        ≡ stopping_at w (clear_if_pid_matches pid m) ls signals returned
  unfolding stopper_step
  stop_forgets m ls pid signals =
      stopper_at missing (stopping_at w m ls signals (forgetting pid)) w.stoppers (forgetting pid)
        alive refl
      ∙ ap
          (λ t. record w {
            manager = clear_if_pid_matches pid m;
            launchers = ls;
            signalled = signals;
            stoppers = t;
          })
          (set-last w.stoppers (forgetting pid) returned)

  stop_marks :
      (name : String) (m : Manager) (pid : ℕ)
      → begin_stop w.manager name ≡ inr (m, pid)
      → step missing w (stop name) ≡ stopping_at w m w.launchers w.signalled (cancelling pid)
  unfolding step live_step stop_model
  stop_marks name m pid e = ground arith

  -- A call of StopModel that is not interrupted.
  pub stop_whole :
      (name : String) (m : Manager) (pid : ℕ)
      → begin_stop w.manager name ≡ inr (m, pid)
      → run missing w (stop name ∷ rest_of_stop (length w.stoppers))
        ≡ stopping_at w
            (clear_if_pid_matches pid m)
            (cancel m.cancel_func w.launchers)
            (killed_too pid w.signalled)
            returned
  unfolding run
  stop_whole name m pid e = rw (stop_marks name m pid e) (
      rw (stop_cancels m w.launchers pid) (
        rw (stop_kills m (cancel m.cancel_func w.launchers) pid) (
          rw (stop_forgets m (cancel m.cancel_func w.launchers) pid (killed_too pid w.signalled)))))
