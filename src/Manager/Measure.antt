-- ===== src/Manager/Measure.antt =====
-- manager/manager.go: launchServer goes on only for so long. A number that falls with every step that a
-- launcher takes, and that no other event raises.
use llm_server_manager.Base.{
  ◌≡◌, refl, ◌⊎◌, inl, inr, Bool, true, ◌&&◌, not, Option, none, some, List, [], ◌∷◌, ◌++◌, ℕ, zero,
  suc, ◌+◌, ◌-◌, ◌*◌, ◌<◌, ◌≤◌, ltb, get_elem?, set, modify, arith, if_cases, option_cases,
}
use llm_server_manager.Models.{ModelConfig}
use llm_server_manager.Manager.State.{claim, is_process_alive}
use llm_server_manager.Manager.Launcher.{
  Stage, entered, looping, spawning, spawned, claiming, waiting, exited, restarting, sleeping,
  clearing, finished, Launcher, new_launcher, after_exit, restart_delay,
}
use llm_server_manager.Manager.World.{
  World, Choice, start_fails, start_returns, wait_returns, cancel, launcher_step,
}
use llm_server_manager.Manager.Budget.{
  claim-max_retries, mark_restarting-max_retries, clear-max_retries,
}

-- How far a stage is from the end of its round.
abbrev pub rank : Stage → ℕ
rank (restarting p) = 12
rank entered = 11
rank (sleeping n) = 11
rank looping = 10
rank spawning = 9
rank (spawned p) = 8
rank (claiming p) = 7
rank (waiting p) = 6
rank (exited p failed) = 5
rank (clearing p) = 1
rank finished = 0

-- Ten steps make a round, and each crash that is retried begins one.
abbrev pub measure : ℕ → Launcher → ℕ
measure max l = 10 * (max + 1 - l.crash_count) + rank l.stage

-- What a step of launcher `j`, which stands at `l`, may do: nothing, end the program, or bring the
-- measure down.
pub record Progress (max j : ℕ) (l : Launcher) (w w' : World) : Type 0 where
  pub retries : w'.manager.max_retries ≡ w.manager.max_retries
  pub falls :
      (w' ≡ w)
      ⊎ (((w'.panicked ≡ true) × (w'.launchers ≡ w.launchers))
          ⊎ ((l' : Launcher) × (w'.launchers ≡ set w.launchers j l')
              × (measure max l' < measure max l)))

after_exit-measure :
    (max pid : ℕ) (failed : Bool) (l : Launcher)
    → measure max (after_exit max pid failed l) < 10 * (max + 1 - l.crash_count) + 5
unfolding after_exit
after_exit-measure max pid failed l = ground arith

module _ (max j : ℕ) (l : Launcher) (w : World) where
  falls_to :
      (w' : World) (l' : Launcher)
      → w'.manager.max_retries ≡ w.manager.max_retries
      → w'.launchers ≡ set w.launchers j l'
      → measure max l' < measure max l
      → Progress max j l w w'
  falls_to w' l' r e m = record { retries = r; falls = inr (inr (l', e, m)) }

  stays : Progress max j l w w
  stays = record { retries = refl; falls = inl refl }

  -- `s` is the stage, which the clauses match on.
  pub launcher_step-Progress :
      (s : Stage) (ch : Choice)
      → l.stage ≡ s
      → w.manager.max_retries ≡ max
      → Progress max j l w (launcher_step j l s ch w)
  unfolding launcher_step
  launcher_step-Progress entered ch e r =
      option_cases (Progress max j l w) w.manager.server
        (λ _. record { retries = refl; falls = inr (inl (refl, refl)) })
        (λ s _. falls_to _ (record l { stage = looping }) refl refl (ground arith))
  launcher_step-Progress looping ch e r =
      if_cases
        (λ s.
          Progress max j l w (record w { launchers = set w.launchers j (record l { stage = s }) }))
        l.cancelled
        (λ _. falls_to _ (record l { stage = clearing l.registered }) refl refl (ground arith))
        (λ _. falls_to _ (record l { stage = spawning }) refl refl (ground arith))
  launcher_step-Progress spawning start_fails e r =
      falls_to _ (record l { stage = clearing l.registered }) refl refl (ground arith)
  launcher_step-Progress spawning (start_returns pid) e r =
      if_cases (Progress max j l w) (ltb 0 pid && not (is_process_alive w.processes pid))
        (λ _.
          falls_to _ (record l { stage = spawned pid; starts = l.starts + 1 }) refl refl
            (ground arith))
        (λ _. stays)
  launcher_step-Progress spawning _ e r = stays
  launcher_step-Progress (spawned pid) ch e r =
      if_cases (Progress max j l w) l.cancelled
        (λ _. falls_to _ (record l { stage = clearing pid }) refl refl (ground arith))
        (λ _. falls_to _ (record l { stage = claiming pid }) refl refl (ground arith))
  launcher_step-Progress (claiming pid) ch e r =
      option_cases (Progress max j l w) (claim pid l.registered l.crash_count w.manager)
        (λ _. falls_to _ (record l { stage = finished }) refl refl (ground arith))
        λ m q.
          falls_to _ (record l { stage = waiting pid; registered = pid })
            (claim-max_retries pid l.registered l.crash_count w.manager m q) refl (ground arith)
  launcher_step-Progress (waiting pid) (wait_returns failed) e r =
      falls_to _ (record l { stage = exited pid failed }) refl refl (ground arith)
  launcher_step-Progress (waiting pid) _ e r = stays
  launcher_step-Progress (exited pid failed) ch e r =
      falls_to _ (after_exit w.manager.max_retries pid failed l) refl refl
        (rw r (ground (arith, after_exit-measure max pid failed l)))
  launcher_step-Progress (restarting pid) ch e r =
      falls_to _ (record l { stage = sleeping (restart_delay l.crash_count) })
        (mark_restarting-max_retries pid w.manager) refl (ground arith)
  launcher_step-Progress (sleeping n) ch e r =
      falls_to _ (record l { stage = looping }) refl refl (ground arith)
  launcher_step-Progress (clearing pid) ch e r =
      falls_to _ (record l { stage = finished }) (clear-max_retries pid w.manager) refl
        (ground arith)
  launcher_step-Progress finished ch e r = stays

-- The steps that a launcher has left at most, one that is not started yet included. The last one may
-- end the program.
abbrev pub left : ℕ → Option Launcher → ℕ
left max none = 10 * max + 22
left max (some l) = measure max l + 1

pub left-modify :
    (max i j : ℕ) (ls : List Launcher)
    → left max (get_elem? (modify j (λ l. record l { cancelled = true }) ls) i)
      ≡ left max (get_elem? ls i)
left-modify max i j [] = refl
left-modify max zero zero (l ∷ ls) = refl
left-modify max (suc i) zero (l ∷ ls) = refl
left-modify max zero (suc j) (l ∷ ls) = refl
left-modify max (suc i) (suc j) (l ∷ ls) = left-modify max i j ls

pub left-cancel :
    (max i : ℕ) (c : Option ℕ) (ls : List Launcher)
    → left max (get_elem? (cancel c ls) i) ≡ left max (get_elem? ls i)
unfolding cancel
left-cancel max i none ls = refl
left-cancel max i (some j) ls = left-modify max i j ls

pub left-append :
    (max i : ℕ) (c : ModelConfig) (ls : List Launcher)
    → left max (get_elem? (ls ++ new_launcher c ∷ []) i) ≤ left max (get_elem? ls i)
unfolding new_launcher
left-append max zero c [] = omega arith
left-append max (suc i) c [] = omega arith
left-append max zero c (l ∷ ls) = omega arith
left-append max (suc i) c (l ∷ ls) = left-append max i c ls

pub left-set :
    (max i j : ℕ) (l l' : Launcher) (ls : List Launcher)
    → get_elem? ls j ≡ some l
    → measure max l' < measure max l
    → left max (get_elem? (set ls j l') i) ≤ left max (get_elem? ls i)
left-set max i j l l' [] e m = omega arith
left-set max zero zero l l' (k ∷ ls) e m = ground arith
left-set max (suc i) zero l l' (k ∷ ls) e m = omega arith
left-set max zero (suc j) l l' (k ∷ ls) e m = omega arith
left-set max (suc i) (suc j) l l' (k ∷ ls) e m = left-set max i j l l' ls e m

pub left-set_self :
    (max i : ℕ) (l l' : Launcher) (ls : List Launcher)
    → get_elem? ls i ≡ some l
    → measure max l' < measure max l
    → left max (get_elem? (set ls i l') i) < left max (get_elem? ls i)
left-set_self max i l l' [] e m = cc
left-set_self max zero l l' (k ∷ ls) e m = ground arith
left-set_self max (suc i) l l' (k ∷ ls) e m = left-set_self max i l l' ls e m
