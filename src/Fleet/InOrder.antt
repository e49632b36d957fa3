-- ===== src/Fleet/InOrder.antt =====
-- fleet/fleet.go: the result of Snapshots, in config order.
use llm_server_manager.Base.{
  ◌≡◌, refl, sym, ap, ◌∙◌, subst, String, Option, none, some, List, [], ◌∷◌, ℕ, zero, suc, map, All,
}
use llm_server_manager.Fleet.Worker.{Url, Worker}
use llm_server_manager.Fleet.Registry.{Registry, WorkerSnapshot}
use llm_server_manager.Fleet.Gather.{
  Stage, looking, asking, storing, done, Slot, Gather, Sight, advance_at, Event, act, elsewhere,
  reloaded, gather_step, gather, slot_of, begin_snapshots, results, with_result,
}
use llm_server_manager.Fleet.Gathered.{Filed, StageOf, Slots, Asks, gather-Sound}

abbrev workers_of : List Slot → List Worker
workers_of slots = map (λ (x : Slot). x.worker) slots

advance_at-workers :
    (r : Registry) (slots : List Slot) (i : ℕ) (s : Sight)
    → workers_of (advance_at r slots i s).slots ≡ workers_of slots
unfolding advance_at
advance_at-workers r [] i s = refl
advance_at-workers r (x ∷ xs) zero s = refl
advance_at-workers r (x ∷ xs) (suc i) s = ap (λ ws. x.worker ∷ ws) (advance_at-workers r xs i s)

gather-workers :
    (parse_url : String → Option Url) (g : Gather) (es : List Event)
    → workers_of (gather parse_url g es).slots ≡ workers_of g.slots
unfolding gather gather_step
gather-workers parse_url g [] = refl
gather-workers parse_url g (act i s ∷ es) =
    gather-workers parse_url (gather_step parse_url g (act i s)) es
    ∙ advance_at-workers g.registry g.slots i s
gather-workers parse_url g (elsewhere w s later ∷ es) =
    gather-workers parse_url (gather_step parse_url g (elsewhere w s later)) es
gather-workers parse_url g (reloaded specs ∷ es) =
    gather-workers parse_url (gather_step parse_url g (reloaded specs)) es

workers_of-slot_of : (ws : List Worker) → workers_of (map slot_of ws) ≡ ws
workers_of-slot_of [] = refl
workers_of-slot_of (w ∷ ws) = ap (λ vs. w ∷ vs) (workers_of-slot_of ws)

with_result-some :
    (stage : Stage) (rest : Option (List WorkerSnapshot)) (snaps : List WorkerSnapshot)
    → with_result stage rest ≡ some snaps
    → (snap : WorkerSnapshot) × (more : List WorkerSnapshot) × (stage ≡ done snap)
      × (rest ≡ some more)
      × (snaps ≡ snap ∷ more)
with_result-some (done snap) (some more) snaps e = (snap, more, refl, refl, cc)
with_result-some (done snap) none snaps e = cc
with_result-some looking rest snaps e = cc
with_result-some asking rest snaps e = cc
with_result-some (storing s c) rest snaps e = cc

module _ (Known : Worker → Type 0)
    (same_url : (v w : Worker) → Known v → Known w → v.url ≡ w.url → v ≡ w) where
  results-workers :
      (slots : List Slot) (snaps : List WorkerSnapshot)
      → Slots Known slots
      → results slots ≡ some snaps
      → map (λ (s : WorkerSnapshot). s.worker) snaps ≡ workers_of slots
  unfolding results
  results-workers [] snaps h e =
      let z : [] ≡ snaps = cc in ap (map (λ (s : WorkerSnapshot). s.worker)) (sym z)
  results-workers (x ∷ xs) snaps h e =
      let (snap, more, at_end, rest, whole) = with_result-some x.stage (results xs) snaps e in
      let held = subst (StageOf Known x.worker) at_end h.0.1 in
      let own = same_url snap.worker x.worker held.1 h.0.0 held.0 in
      let others = results-workers xs more h.1 rest in
      ap (map (λ (s : WorkerSnapshot). s.worker)) whole ∙ cc

  begin-Slots : (ws : List Worker) → All Known ws → Slots Known (map slot_of ws)
  begin-Slots [] h = tt
  begin-Slots (w ∷ ws) h = ((h.0, tt), begin-Slots ws h.1)

  -- Where no two workers have the same URL and the cache has only snapshots of such workers under their
  -- URLs: however the goroutines run, with other requests' probes of these workers and reloads between
  -- their steps, the snapshots that Snapshots returns are those of the registry's workers, one for each,
  -- in config order.
  pub gathered_in_order :
      (parse_url : String → Option Url) (r : Registry) (es : List Event)
      (snaps : List WorkerSnapshot)
      → All Known r.workers
      → Filed Known r.cache
      → All (Asks Known) es
      → results (gather parse_url (begin_snapshots r) es).slots ≡ some snaps
      → map (λ (s : WorkerSnapshot). s.worker) snaps ≡ r.workers
  gathered_in_order parse_url r es snaps known filed asks e =
      let sound =
        gather-Sound Known parse_url (begin_snapshots r) es asks
          (filed, begin-Slots r.workers known) in
      results-workers (gather parse_url (begin_snapshots r) es).slots snaps sound.1 e
      ∙ gather-workers parse_url (begin_snapshots r) es
      ∙ workers_of-slot_of r.workers
