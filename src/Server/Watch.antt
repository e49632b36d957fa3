-- ===== src/Server/Watch.antt =====
-- server/server.go: WatchConfig, the goroutine that reloads the configuration once the events of a save
-- have settled. The clock and the events are the input.
use llm_server_manager.Base.{
  ◌≡◌, Bool, true, false, ◌&&◌, Option, none, some, List, [], ◌∷◌, ℕ, ◌+◌, ◌≤◌, ◌<◌, leb, is_some,
  ◌⊎◌, if◌then◌else◌, arith,
}

-- configReloadDebounce, 300 ms in nanoseconds.
abbrev pub debounce : ℕ
debounce = 300000000

-- `deadline` is when the timer fires, where timerC is not nil; `reloads` counts the reloads.
pub record Watcher : Type 0 where
  pub deadline : Option ℕ
  pub reloads : ℕ
  pub stopped : Bool

abbrev pub new_watcher : Watcher
new_watcher = record { deadline = none; reloads = 0; stopped = false }

-- What the goroutine's select picks: a file event, of the config file or not and of a kind that
-- matters or not; the timer; an error of the watcher; a closed channel; or the stop channel. Where
-- several are ready, Go picks any.
pub data Wake : Type 0 where
  file_event : Bool → Bool → Wake
  timer watch_error channel_closed stop_requested : Wake

-- The timer's channel: it is ready once the deadline has come.
fire : ℕ → Watcher → Watcher
fire now w = elim w.deadline [
  | none ↦ w
  | some d ↦ if leb d now then record w { deadline = none; reloads = w.reloads + 1 } else w
]

-- A file event that matters resets the timer, also where that was due and not yet read.
receive : ℕ → Wake → Watcher → Watcher
unfolding fire
receive now (file_event same_name relevant) w =
    if same_name && relevant then record w { deadline = some (now + debounce) } else w
receive now timer w = fire now w
receive now watch_error w = w
receive now channel_closed w = record w { stopped = true }
receive now stop_requested w = record w { stopped = true }

-- One round of the loop at time `now`.
unfoldable pub wake : ℕ → Wake → Watcher → Watcher
unfolding receive
wake now e w = if w.stopped then w else receive now e w

unfoldable pub watch : Watcher → List (ℕ × Wake) → Watcher
watch w [] = w
watch w ((now, e) ∷ es) = watch (wake now e w) es

abbrev pub asks_reload : Wake → Bool
asks_reload (file_event same_name relevant) = same_name && relevant
asks_reload _ = false

-- The events that ask for a reload.
abbrev pub relevant_events : List (ℕ × Wake) → ℕ
relevant_events [] = 0
relevant_events ((now, e) ∷ es) = (if asks_reload e then 1 else 0) + relevant_events es

-- How many reloads are still to come.
abbrev outstanding : Watcher → ℕ
outstanding w = elim w.deadline [ none ↦ 0 | some d ↦ 1 ]

wake-outstanding :
    (now : ℕ) (e : Wake) (w : Watcher)
    → (wake now e w).reloads + outstanding (wake now e w)
      ≤ w.reloads + outstanding w + (if asks_reload e then 1 else 0)
unfolding wake
wake-outstanding now (file_event a b) w = ground arith
wake-outstanding now _ w = ground arith

watch-outstanding :
    (w : Watcher) (es : List (ℕ × Wake))
    → (watch w es).reloads + outstanding (watch w es)
      ≤ w.reloads + outstanding w + relevant_events es
unfolding watch
watch-outstanding w [] = omega arith
watch-outstanding w ((now, e) ∷ es) =
    omega (arith, wake-outstanding now e w, watch-outstanding (wake now e w) es)

-- The watcher never reloads without being asked: it makes at most one reload for each create, write or
-- chmod event of the configuration file.
pub watch-reloads : (es : List (ℕ × Wake)) → (watch new_watcher es).reloads ≤ relevant_events es
watch-reloads es = omega (arith, watch-outstanding new_watcher es)

-- A change that was seen is not forgotten.
abbrev pub Remembers : ℕ → Watcher → Type 0
Remembers before w = (is_some w.deadline ≡ true) ⊎ ((before < w.reloads) ⊎ (w.stopped ≡ true))

wake-Remembers :
    (before now : ℕ) (e : Wake) (w : Watcher)
    → before ≤ w.reloads
    → Remembers before w
    → Remembers before (wake now e w) × (before ≤ (wake now e w).reloads)
unfolding wake
wake-Remembers before now (file_event a b) w le m = ground arith
wake-Remembers before now _ w le m = ground arith

watch-Remembers :
    (before : ℕ) (w : Watcher) (es : List (ℕ × Wake))
    → before ≤ w.reloads
    → Remembers before w
    → Remembers before (watch w es)
unfolding watch
watch-Remembers before w [] le m = m
watch-Remembers before w ((now, e) ∷ es) le m =
    let (m', le') = wake-Remembers before now e w le m in
    watch-Remembers before (wake now e w) es le' m'

asked :
    (w : Watcher) (now : ℕ)
    → Remembers w.reloads (wake now (file_event true true) w)
      × (w.reloads ≤ (wake now (file_event true true) w).reloads)
unfolding wake
asked w now = ground arith

-- After a relevant event, whatever follows, either a reload has happened since, or the timer is set,
-- or the watcher was stopped.
pub watch_not_lost :
    (w : Watcher) (now : ℕ) (es : List (ℕ × Wake))
    → Remembers w.reloads (watch (wake now (file_event true true) w) es)
watch_not_lost w now es =
    let (m, le) = asked w now in
    watch-Remembers w.reloads (wake now (file_event true true) w) es le m
