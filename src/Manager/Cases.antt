-- ===== src/Manager/Cases.antt =====
-- The branches of the manager's operations as case rules, and invariants of `run` from those of one
-- step. Every proof about interleavings goes through these.
use llm_server_manager.Base.{
  ◌≡◌, inl, inr, Bool, some, List, [], ◌∷◌, ◌++◌, String, ℕ, length, get_elem?, Option-cases,
  Sum-cases, if_cases,
}
use llm_server_manager.Models.{ModelConfig}
use llm_server_manager.Manager.State.{Manager, admit_start, begin_start, begin_stop}
use llm_server_manager.Manager.Launcher.{Launcher, new_launcher}
use llm_server_manager.Manager.World.{
  World, Stopper, cancelling, Choice, Event, launch, stopper, cancel, start_model, stop_model,
  stopper_step, launcher_step, live_step, step, run,
}

-- What StartModel makes of the world once it has decided to launch a configuration.
abbrev pub launched : World → ModelConfig → ℕ → World
launched w c now = record w {
  manager = begin_start w.manager c (length w.launchers) now;
  launchers = cancel w.manager.cancel_func w.launchers ++ new_launcher c ∷ [];
}

pub start_model_cases {ℓ} :
    (P : World → Type ℓ) (missing : String → Bool) (name : String) (now : ℕ) (w : World)
    → P w
    → ((c : ModelConfig) → admit_start missing w.manager name ≡ inr c → P (launched w c now))
    → P (start_model missing name now w).0
unfolding start_model
start_model_cases P missing name now w refused taken =
    elim (Sum-cases (admit_start missing w.manager name)) [
      | inl (e, q) ↦ rw (q, start_model) refused
      | inr (c, q) ↦ rw (q, start_model) (taken c q)
    ]

pub stop_model_cases {ℓ} :
    (P : World → Type ℓ) (name : String) (w : World)
    → P w
    → ((m : Manager) (pid : ℕ)
        → begin_stop w.manager name ≡ inr (m, pid)
        → P (record w { manager = m; stoppers = w.stoppers ++ cancelling pid ∷ [] }))
    → P (stop_model name w).0
unfolding stop_model
stop_model_cases P name w refused taken = elim (Sum-cases (begin_stop w.manager name)) [
  | inl (e, q) ↦ rw (q, stop_model) refused
  | inr ((m, pid), q) ↦ rw (q, stop_model) (taken m pid q)
]

pub launch_cases {ℓ} :
    (P : World → Type ℓ) (missing : String → Bool) (i : ℕ) (ch : Choice) (w : World)
    → P w
    → ((l : Launcher) → get_elem? w.launchers i ≡ some l → P (launcher_step i l l.stage ch w))
    → P (live_step missing w (launch i ch))
unfolding live_step
launch_cases P missing i ch w absent found = elim (Option-cases (get_elem? w.launchers i)) [
  | inl q ↦ rw (q, live_step) absent
  | inr (l, q) ↦ rw (q, live_step) (found l q)
]

pub stopper_cases {ℓ} :
    (P : World → Type ℓ) (missing : String → Bool) (i : ℕ) (w : World)
    → P w
    → ((s : Stopper) → get_elem? w.stoppers i ≡ some s → P (stopper_step i s w))
    → P (live_step missing w (stopper i))
unfolding live_step
stopper_cases P missing i w absent found = elim (Option-cases (get_elem? w.stoppers i)) [
  | inl q ↦ rw (q, live_step) absent
  | inr (s, q) ↦ rw (q, live_step) (found s q)
]

-- An invariant of the single steps holds along every run.
pub run_inv {ℓ} :
    (P : World → Type ℓ) (missing : String → Bool)
    → ((w : World) (e : Event) → P w → P (live_step missing w e))
    → (w : World) (es : List Event) → P w
    → P (run missing w es)
unfolding run step
run_inv P missing keeps w [] h = h
run_inv P missing keeps w (e ∷ es) h =
    run_inv P missing keeps (step missing w e) es
      (if_cases P w.panicked (λ _. h) (λ _. keeps w e h))
