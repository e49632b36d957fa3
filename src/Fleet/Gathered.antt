-- ===== src/Fleet/Gathered.antt =====
-- fleet/fleet.go: what Snapshots returns, however its goroutines run.
use llm_server_manager.Base.{
  ◌≡◌, refl, sym, ap, ◌∙◌, subst, Bool, ◌&&◌, String, ◌==◌, eq_iff, Option, none, some, List, [],
  ◌∷◌, ℕ, zero, suc, lookup, insert, All, arith, inl, inr, if_cases, Bool-cases, Option-cases,
  option_cases, ltb,
}
use llm_server_manager.Models.{ModelItem}
use llm_server_manager.Fleet.Worker.{Url, Worker, Reply}
use llm_server_manager.Fleet.Registry.{
  Registry, CacheEntry, WorkerSnapshot, cached, probe, store, snapshot, reload,
}
use llm_server_manager.Fleet.Gather.{
  Stage, looking, asking, storing, done, Slot, Gather, Sight, advance, advance_at, Event, act,
  elsewhere, reloaded, gather_step, gather, looked,
}

module _ (Known : Worker → Type 0) where
  -- A cached snapshot is of a known worker with the URL that it is kept under.
  abbrev pub Filed : List (String × CacheEntry) → Type 0
  Filed cache =
      All
        (λ (ke : String × CacheEntry).
          let (k, e) = ke in (e.snapshot.worker.url ≡ k) × Known e.snapshot.worker)
        cache

  -- A snapshot that stands for a worker.
  abbrev pub StandsFor : Worker → WorkerSnapshot → Type 0
  StandsFor w snap = (snap.worker.url ≡ w.url) × Known snap.worker

  abbrev pub StageOf : Worker → Stage → Type 0
  StageOf w looking = Unit
  StageOf w asking = Unit
  StageOf w (storing snap cacheable) = StandsFor w snap
  StageOf w (done snap) = StandsFor w snap

  lookup-Filed :
      (k : String) (cache : List (String × CacheEntry)) (e : CacheEntry)
      → Filed cache
      → lookup k cache ≡ some e
      → (e.snapshot.worker.url ≡ k) × Known e.snapshot.worker
  unfolding lookup
  lookup-Filed k [] e h q = cc
  lookup-Filed k ((n, x) ∷ rest) e h q = elim (Bool-cases (n == k)) [
    | inl same ↦
        let here : x ≡ e = ground (arith, same) in
        let name : n ≡ k = ground (arith, eq_iff n k) in
        (
          ap (λ (y : CacheEntry). y.snapshot.worker.url) (sym here) ∙ h.0.0 ∙ name,
          subst (λ (y : CacheEntry). Known y.snapshot.worker) here h.0.1,
        )
    | inr other ↦ lookup-Filed k rest e h.1 (ground (arith, other))
  ]

  insert-Filed :
      (k : String) (e : CacheEntry) (cache : List (String × CacheEntry))
      → (e.snapshot.worker.url ≡ k)
      → Known e.snapshot.worker
      → Filed cache
      → Filed (insert k e cache)
  unfolding insert
  insert-Filed k e [] u known h = ((u, known), tt)
  insert-Filed k e ((n, x) ∷ rest) u known h =
      if_cases Filed (n == k) (λ _. ((u, known), h.1))
        (λ _. (h.0, insert-Filed k e rest u known h.1))

  cached-StandsFor :
      (r : Registry) (w : Worker) (now : ℕ) (snap : WorkerSnapshot)
      → Filed r.cache
      → cached r w now ≡ some snap
      → StandsFor w snap
  unfolding cached
  cached-StandsFor r w now snap h q = elim (Option-cases (lookup w.url r.cache)) [
    | inl e ↦ let z : ◌≡◌ {A = Option WorkerSnapshot} none (some snap) = ground arith in cc
    | inr (x, e) ↦
        let same : x.snapshot ≡ snap = ground arith in
        subst (StandsFor w) same (lookup-Filed w.url r.cache x h e)
  ]

  probe-worker :
      (w : Worker) (reply : Reply (List ModelItem)) (ended : Bool)
      → (probe w reply ended).0.worker ≡ w
  unfolding probe
  probe-worker w reply ended = ground arith

  store-Filed :
      (r : Registry) (w : Worker) (later : ℕ) (snap : WorkerSnapshot) (cacheable : Bool)
      → StandsFor w snap
      → Filed r.cache
      → Filed (store r w later (snap, cacheable)).cache
  unfolding store
  store-Filed r w later snap cacheable s h =
      if_cases (λ (r' : Registry). Filed r'.cache) (cacheable && ltb 0 r.cache_ttl)
        (λ _. insert-Filed w.url (record { snapshot = snap; at = later }) r.cache s.0 s.1 h)
        (λ _. h)

  probe-StandsFor : (w : Worker) (s : Sight) → Known w → StandsFor w (probe w s.reply s.ended).0
  probe-StandsFor w s known =
      let same = probe-worker w s.reply s.ended in
      (ap (λ (v : Worker). v.url) same, subst Known (sym same) known)

  looked-StageOf :
      (w : Worker) (found : Option WorkerSnapshot)
      → ((snap : WorkerSnapshot) → found ≡ some snap → StandsFor w snap)
      → StageOf w (looked found)
  unfolding looked
  looked-StageOf w none h = tt
  looked-StageOf w (some snap) h = h snap refl

  -- A goroutine's step keeps the cache filed, and what the goroutine holds stands for its worker.
  advance-StageOf :
      (r : Registry) (w : Worker) (stage : Stage) (s : Sight)
      → Known w
      → Filed r.cache
      → StageOf w stage
      → let (r', stage') = advance r w stage s in Filed r'.cache × StageOf w stage'
  unfolding advance
  advance-StageOf r w looking s known h k =
      (h, looked-StageOf w (cached r w s.now) (λ snap. cached-StandsFor r w s.now snap h))
  advance-StageOf r w asking s known h k = (h, probe-StandsFor w s known)
  advance-StageOf r w (storing snap cacheable) s known h k =
      (store-Filed r w s.now snap cacheable k h, k)
  advance-StageOf r w (done snap) s known h k = (h, k)

  abbrev pub Slots : List Slot → Type 0
  Slots slots = All (λ (x : Slot). Known x.worker × StageOf x.worker x.stage) slots

  advance_at-Slots :
      (r : Registry) (slots : List Slot) (i : ℕ) (s : Sight)
      → Filed r.cache
      → Slots slots
      → let g = advance_at r slots i s in Filed g.registry.cache × Slots g.slots
  unfolding advance_at
  advance_at-Slots r [] i s h k = (h, tt)
  advance_at-Slots r (x ∷ xs) zero s h k =
      let (filed, stage) = advance-StageOf r x.worker x.stage s k.0.0 h k.0.1 in
      (filed, ((k.0.0, stage), k.1))
  advance_at-Slots r (x ∷ xs) (suc i) s h k =
      let (filed, slots) = advance_at-Slots r xs i s h k.1 in (filed, (k.0, slots))

  snapshot-Filed :
      (r : Registry) (w : Worker) (s : Sight) (later : ℕ)
      → Known w
      → Filed r.cache
      → Filed (snapshot r w s.now s.reply s.ended later).0.cache
  unfolding snapshot
  snapshot-Filed r w s later known h =
      option_cases (λ (p : Registry × WorkerSnapshot). Filed p.0.cache) (cached r w s.now)
        (λ _.
          let (snap, cacheable) = probe w s.reply s.ended in
          store-Filed r w later snap cacheable (probe-StandsFor w s known) h)
        (λ snap _. h)

  -- The other requests' probes are of known workers.
  abbrev pub Asks : Event → Type 0
  Asks (act i s) = Unit
  Asks (elsewhere w s later) = Known w
  Asks (reloaded specs) = Unit

  abbrev pub Sound : Gather → Type 0
  Sound g = Filed g.registry.cache × Slots g.slots

  gather_step-Sound :
      (parse_url : String → Option Url) (g : Gather) (e : Event)
      → Asks e
      → Sound g
      → Sound (gather_step parse_url g e)
  unfolding gather_step reload
  gather_step-Sound parse_url g (act i s) a h = advance_at-Slots g.registry g.slots i s h.0 h.1
  gather_step-Sound parse_url g (elsewhere w s later) a h =
      (snapshot-Filed g.registry w s later a h.0, h.1)
  gather_step-Sound parse_url g (reloaded specs) a h = (tt, h.1)

  pub gather-Sound :
      (parse_url : String → Option Url) (g : Gather) (es : List Event)
      → All Asks es
      → Sound g
      → Sound (gather parse_url g es)
  unfolding gather
  gather-Sound parse_url g [] a h = h
  gather-Sound parse_url g (e ∷ es) a h =
      gather-Sound parse_url (gather_step parse_url g e) es a.1
        (gather_step-Sound parse_url g e a.0 h)
