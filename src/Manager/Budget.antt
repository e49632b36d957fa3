-- ===== src/Manager/Budget.antt =====
-- manager/manager.go: how a launcher's starts and crashes compare at each place of launchServer, and
-- which operations keep the limit on retries.
use llm_server_manager.Base.{◌≡◌, inr, Bool, some, List, String, ℕ, ◌+◌, ◌<◌, ◌≤◌, All, arith}
use llm_server_manager.Manager.State.{
  Manager, begin_stop, clear_if_pid_matches, claim, mark_restarting, get_current_server,
}
use llm_server_manager.Manager.Launcher.{
  Stage, spawned, claiming, waiting, exited, restarting, sleeping, clearing, finished, Launcher,
  after_exit, restart_delay,
}
use llm_server_manager.Manager.World.{World}

-- Where a launcher stands fixes how its starts and its crashes compare.
abbrev pub Budget : ℕ → Stage → ℕ → ℕ → Type 0
Budget max (spawned p) crashes starts = (starts ≡ crashes + 1) × (crashes ≤ max)
Budget max (claiming p) crashes starts = (starts ≡ crashes + 1) × (crashes ≤ max)
Budget max (waiting p) crashes starts = (starts ≡ crashes + 1) × (crashes ≤ max)
Budget max (exited p failed) crashes starts = (starts ≡ crashes + 1) × (crashes ≤ max)
Budget max (restarting p) crashes starts = (starts ≡ crashes) × (0 < crashes) × (crashes ≤ max)
Budget max (sleeping n) crashes starts =
    (starts ≡ crashes) × (n ≡ restart_delay crashes) × (0 < crashes) × (crashes ≤ max)
Budget max (clearing p) crashes starts = starts ≤ max + 1
Budget max finished crashes starts = starts ≤ max + 1
Budget max _ crashes starts = (starts ≡ crashes) × (crashes ≤ max)

abbrev pub WithinBudget : ℕ → Launcher → Type 0
WithinBudget max l = Budget max l.stage l.crash_count l.starts

pub record Bounded (max : ℕ) (w : World) : Type 0 where
  pub retries : w.manager.max_retries ≡ max
  pub launchers : All (WithinBudget max) w.launchers

pub begin_stop-max_retries :
    (m m' : Manager) (name : String) (pid : ℕ)
    → begin_stop m name ≡ inr (m', pid)
    → m'.max_retries ≡ m.max_retries
unfolding begin_stop
begin_stop-max_retries m m' name pid e = ground arith

pub clear-max_retries :
    (pid : ℕ) (m : Manager) → (clear_if_pid_matches pid m).max_retries ≡ m.max_retries
unfolding clear_if_pid_matches
clear-max_retries pid m = ground arith

pub mark_restarting-max_retries :
    (pid : ℕ) (m : Manager) → (mark_restarting pid m).max_retries ≡ m.max_retries
unfolding mark_restarting
mark_restarting-max_retries pid m = ground arith

pub get_current_server-max_retries :
    (alive : List ℕ) (m : Manager) → (get_current_server alive m).0.max_retries ≡ m.max_retries
unfolding get_current_server
get_current_server-max_retries alive m = ground arith

pub claim-max_retries :
    (pid registered crashes : ℕ) (m m' : Manager)
    → claim pid registered crashes m ≡ some m'
    → m'.max_retries ≡ m.max_retries
unfolding claim
claim-max_retries pid registered crashes m m' e = ground arith

pub after_exit-WithinBudget :
    (max pid : ℕ) (failed : Bool) (l : Launcher)
    → (l.starts ≡ l.crash_count + 1) × (l.crash_count ≤ max)
    → WithinBudget max (after_exit max pid failed l)
unfolding after_exit
after_exit-WithinBudget max pid failed l h = ground arith
