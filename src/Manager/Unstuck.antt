-- ===== src/Manager/Unstuck.antt =====
-- manager/manager.go: a launcher that has not ended can take a step that changes something.
use llm_server_manager.Base.{
  ◌≡◌, subst, refl, sym, ap, ◌∙◌, ◌≢◌, Bool, false, some, List, [], ◌∷◌, String, ℕ, zero, suc,
  get_elem?, set, arith, if_cases, option_cases, if◌then◌else◌,
}
use llm_server_manager.Models.{starting}
use llm_server_manager.Manager.State.{claim}
use llm_server_manager.Manager.Launcher.{
  Stage, entered, looping, spawning, spawned, claiming, waiting, exited, restarting, sleeping,
  clearing, finished, Launcher, after_exit, restart_delay,
}
use llm_server_manager.Manager.World.{
  World, to_stage, set_launcher, kill_group, Choice, proceed, start_fails, wait_returns, launch,
  launcher_step, live_step, step,
}

set_same :
    (ls : List Launcher) (i : ℕ) (l l' : Launcher)
    → get_elem? ls i ≡ some l
    → set ls i l' ≡ ls
    → l' ≡ l
set_same [] i l l' g e = cc
set_same (x ∷ ls) zero l l' g e = ground (arith, g, e)
set_same (x ∷ ls) (suc i) l l' g e = set_same ls i l l' g (ground (arith, e))

after_exit_leaves :
    (max pid : ℕ) (failed : Bool) (l : Launcher)
    → (after_exit max pid failed l).stage ≢ exited pid failed
unfolding after_exit
after_exit_leaves max pid failed l e = ground (arith, e)

step_of :
    (missing : String → Bool) (i : ℕ) (l : Launcher) (w : World) (ch : Choice)
    → get_elem? w.launchers i ≡ some l
    → w.panicked ≡ false
    → step missing w (launch i ch) ≡ launcher_step i l l.stage ch w
unfolding step live_step
step_of missing i l w ch at p = ground arith

module _ (i : ℕ) (l : Launcher) (w : World) (at : get_elem? w.launchers i ≡ some l) where
  changed :
      (w' : World) (l' : Launcher)
      → w'.launchers ≡ set w.launchers i l'
      → l'.stage ≢ l.stage
      → w' ≢ w
  changed w' l' e n same =
      n (ap (λ x. x.stage) (set_same w.launchers i l l' at (sym e ∙ ap (λ x. x.launchers) same)))

  -- The step of a stage moves the launcher on.
  stage_moves :
      (s : Stage)
      → l.stage ≡ s
      → s ≢ finished
      → w.panicked ≡ false
      → (ch : Choice) × (launcher_step i l s ch w ≢ w)
  unfolding launcher_step
  stage_moves looping q n p = (
    proceed,
    changed (launcher_step i l looping proceed w)
        (record l { stage = if l.cancelled then clearing l.registered else spawning }) refl
        (ground (arith, q)),
  )
  stage_moves entered q n p = (
    proceed,
    option_cases (λ w'. w' ≢ w) w.manager.server
        (λ _ same. ground (arith, ap (λ x. x.panicked) same))
        (λ s' _.
          changed
            (to_stage i l looping (record w {
              manager = record w.manager { server = some (record s' { status = starting }) };
            }))
            (record l { stage = looping }) refl (ground (arith, q))),
  )
  stage_moves spawning q n p = (
    start_fails,
    changed (launcher_step i l spawning start_fails w) (record l { stage = clearing l.registered })
        refl (ground (arith, q)),
  )
  stage_moves (spawned pid) q n p = (
    proceed,
    if_cases (λ w'. w' ≢ w) l.cancelled
        (λ _.
          changed (to_stage i l (clearing pid) (kill_group pid w))
            (record l { stage = clearing pid }) refl (ground (arith, q)))
        (λ _.
          changed (to_stage i l (claiming pid) w) (record l { stage = claiming pid }) refl
            (ground (arith, q))),
  )
  stage_moves (claiming pid) q n p = (
    proceed,
    option_cases (λ w'. w' ≢ w) (claim pid l.registered l.crash_count w.manager)
        (λ _.
          changed (to_stage i l finished (kill_group pid w)) (record l { stage = finished }) refl
            (ground (arith, q)))
        (λ m _.
          changed
            (set_launcher i (record l { stage = waiting pid; registered = pid })
              (record w { manager = m }))
            (record l { stage = waiting pid; registered = pid }) refl (ground (arith, q))),
  )
  stage_moves (waiting pid) q n p = (
    wait_returns false,
    changed (launcher_step i l (waiting pid) (wait_returns false) w)
        (record l { stage = exited pid false }) refl (ground (arith, q)),
  )
  stage_moves (exited pid failed) q n p = (
    proceed,
    changed (launcher_step i l (exited pid failed) proceed w)
        (after_exit w.manager.max_retries pid failed l) refl
        (λ e. after_exit_leaves w.manager.max_retries pid failed l (e ∙ q)),
  )
  stage_moves (restarting pid) q n p = (
    proceed,
    changed (launcher_step i l (restarting pid) proceed w)
        (record l { stage = sleeping (restart_delay l.crash_count) }) refl (ground (arith, q)),
  )
  stage_moves (sleeping k) q n p = (
    proceed,
    changed (launcher_step i l (sleeping k) proceed w) (record l { stage = looping }) refl
        (ground (arith, q)),
  )
  stage_moves (clearing pid) q n p = (
    proceed,
    changed (launcher_step i l (clearing pid) proceed w) (record l { stage = finished }) refl
        (ground (arith, q)),
  )
  stage_moves finished q n p = absurd (n refl)

-- In a program that has not panicked, a launcher that has not ended has a step that changes something,
-- for some answer of the operating system.
pub launcher_moves :
    (missing : String → Bool) (i : ℕ) (l : Launcher) (w : World)
    → get_elem? w.launchers i ≡ some l
    → l.stage ≢ finished
    → w.panicked ≡ false
    → (ch : Choice) × (step missing w (launch i ch) ≢ w)
launcher_moves missing i l w at n p =
    let (ch, ne) = stage_moves i l w at l.stage refl n p in
    (ch, subst (λ x. x ≢ w) (sym (step_of missing i l w ch at p)) ne)
