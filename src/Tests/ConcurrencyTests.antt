-- ===== src/Tests/ConcurrencyTests.antt =====
-- manager/manager.go and proxy/proxy.go: interleavings at concrete inputs.
use llm_server_manager.Base.{
  ◌+◌, ◌≡◌, refl, get_elem?, some, ltb_float, Bool, ◌≢◌, true, false, none, List, [], ◌∷◌, ℕ, ◌≤◌,
  ap, lookup, insert, arith,
}
use llm_server_manager.Manager.State.{new, admit_start, begin_start}
use llm_server_manager.Manager.Validate.{validate_start, validate_config, check_ranges}
use llm_server_manager.Manager.Launcher.{Launcher, finished, looping, new_launcher}
use llm_server_manager.Manager.World.{
  World, Choice, run, start, launch, proceed, boot, step, live_step, start_model, launcher_step,
  cancel,
}
use llm_server_manager.Manager.Termination.{Moves, done, still, moves, launcher_terminates}
use llm_server_manager.Proxy.Router.{Router, View, rebuild, invalidate}
use llm_server_manager.Proxy.Flight.{
  publishing, collecting, waiting, idle, Event, call, act, fly, flight_step, advance, enter,
  grounded,
}
use llm_server_manager.Proxy.InFlight.{owner_of}
use llm_server_manager.Proxy.SingleFlight.{single_flight}
use llm_server_manager.Proxy.Waiting.{waiting_ends, joined_rebuild_is_old, joining, ending, Freed}
use llm_server_manager.Tests.Samples.{two_models, all_there}
use llm_server_manager.Manager.Logs.{LogStep, prepare}

abbrev began : World
began = step all_there (boot (new two_models 6)) (start "llama" 5)

-- Whether the first launcher is in its loop.
abbrev loops : World → Bool
loops w = elim w.launchers [ [] ↦ false | l ∷ ls ↦ elim l.stage [ looping ↦ true | _ ↦ false ] ]

entering_moves : step all_there began (launch 0 proceed) ≢ began
unfolding step live_step start_model admit_start validate_start validate_config check_ranges
    ltb_float cancel boot new lookup begin_start launcher_step new_launcher
entering_moves e = let b : true ≡ false = ap loops e in ground (arith, b)

one_move : Moves all_there 0 (boot (new two_models 6)) (start "llama" 5 ∷ launch 0 proceed ∷ []) 1
one_move =
    still (boot (new two_models 6)) (start "llama" 5) (launch 0 proceed ∷ []) 1
      (moves began proceed [] 0 entering_moves (done (step all_there began (launch 0 proceed))))

launcher_terminates_example :
    let w = run all_there (boot (new two_models 6)) (start "llama" 5 ∷ launch 0 proceed ∷ []) in
    (1 ≤ 82)
    × ((l : Launcher)
        → get_elem? w.launchers 0 ≡ some l
        → l.stage ≢ finished
        → w.panicked ≡ false
        → (ch : Choice) × (step all_there w (launch 0 ch) ≢ w))
launcher_terminates_example =
    launcher_terminates all_there two_models 6 0 1 (start "llama" 5 ∷ launch 0 proceed ∷ [])
      one_move

abbrev empty_view : View
empty_view = record { sources = []; done = 20 }

abbrev router : Router
router = record { table = []; entries = []; built_at = none; ttl = 2000 }

abbrev two_calls : List Event
two_calls = call 0 "gpt" ∷ act 0 empty_view ∷ call 1 "gpt" ∷ act 1 empty_view ∷ []

collects : (fly (grounded router) two_calls).threads 0 ≡ collecting "gpt" 0
unfolding fly flight_step advance enter lookup insert
collects = refl

waits : (fly (grounded router) two_calls).threads 1 ≡ waiting "gpt" 0
unfolding fly flight_step advance enter lookup insert
waits = refl

single_flight_example : ◌≡◌ {A = ℕ} 0 0 × ◌≡◌ {A = ℕ} 0 0
single_flight_example =
    single_flight router two_calls 0 0 "gpt" 0 0 (ap owner_of collects) (ap owner_of collects)

waiting_ends_example : (j : ℕ) × (n : ℕ) × (n ≤ 3) × Freed 1 j n (fly (grounded router) two_calls)
waiting_ends_example = waiting_ends router two_calls 1 "gpt" 0 waits

abbrev looked : List Event
looked = call 0 "gpt" ∷ act 0 empty_view ∷ act 0 empty_view ∷ []

publishes : (fly (grounded router) looked).threads 0 ≡ publishing "gpt" 0 empty_view
unfolding fly flight_step advance enter lookup insert
publishes = refl

idles : (fly (grounded router) looked).threads 1 ≡ idle
unfolding fly flight_step advance enter lookup insert
idles = refl

joined_rebuild_is_old_example :
    let f = fly (grounded router) looked in
    let joined = fly f (joining "gpt" 1 empty_view) in
    let f' = fly joined (ending 1 0 empty_view) in
    (joined.threads 1 ≡ waiting "gpt" 0)
    × (f'.threads 1 ≡ idle)
    × (f'.rebuilds ≡ f.rebuilds + 1)
    × (f'.router ≡ rebuild (invalidate f.router "gpt") empty_view)
joined_rebuild_is_old_example =
    joined_rebuild_is_old router looked 1 0 "gpt" 0 empty_view empty_view publishes idles

-- Another launcher has a file.
abbrev one_running : List (ℕ × LogStep)
one_running = prepare 0 true
