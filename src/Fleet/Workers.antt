-- ===== src/Fleet/Workers.antt =====
-- fleet/fleet.go: which workers a registry holds, and which one a name finds.
use mathlib.Core.List.{Memᴰ}
use llm_server_manager.Base.{
  ◌≡◌, refl, sym, subst, ◌≢◌, ◌↔◌, ◌⊎◌, inl, inr, Bool, true, false, Option, none, some, List, [],
  ◌∷◌, String, ◌==◌, eq_iff, find_first, arith, Option-cases, Sum-cases, Bool-cases,
}
use llm_server_manager.Config.{WorkerConfig}
use llm_server_manager.Fleet.Worker.{Url, Worker, local_machine, new_worker}
use llm_server_manager.Fleet.Registry.{Registry, load, resolve, has_host}

-- A configured entry that makes the worker.
pub record Configured (parse_url : String → Option Url) (specs : List WorkerConfig) (w : Worker)
    : Type 0 where
  pub spec : WorkerConfig
  pub listed : Memᴰ spec specs
  pub made : new_worker parse_url spec ≡ inr w
  pub not_local : w.name ≢ local_machine

module _ (parse_url : String → Option Url) where
  Configured-cons :
      (s : WorkerConfig) (specs : List WorkerConfig) (w : Worker)
      → Configured parse_url specs w
      → Configured parse_url (s ∷ specs) w
  Configured-cons s specs w c = record {
    spec = c.spec;
    listed = Memᴰ.tail c.listed;
    made = c.made;
    not_local = c.not_local;
  }

  load-skip :
      (s : WorkerConfig) (specs : List WorkerConfig)
      → ((w : Worker) → new_worker parse_url s ≡ inr w → w.name ≡ local_machine)
      → load parse_url (s ∷ specs) ≡ load parse_url specs
  unfolding load
  load-skip s specs h = elim (Sum-cases (new_worker parse_url s)) [
    | inl (e, q) ↦ ground arith
    | inr (v, q) ↦ ground (arith, h v q, eq_iff v.name local_machine)
  ]

  load-take :
      (s : WorkerConfig) (specs : List WorkerConfig) (w : Worker)
      → new_worker parse_url s ≡ inr w
      → w.name ≢ local_machine
      → load parse_url (s ∷ specs) ≡ w ∷ load parse_url specs
  unfolding load
  load-take s specs w q n = ground (arith, eq_iff w.name local_machine)

  -- Whether an entry is skipped.
  entry_cases :
      (s : WorkerConfig)
      → ((w : Worker) → new_worker parse_url s ≡ inr w → w.name ≡ local_machine)
        ⊎ ((w : Worker) × (new_worker parse_url s ≡ inr w) × (w.name ≢ local_machine))
  entry_cases s = elim (Sum-cases (new_worker parse_url s)) [
    | inl (e, q) ↦ inl (λ w r. cc)
    | inr (v, q) ↦ elim (Bool-cases (v.name == local_machine)) [
      | inl y ↦ inl (λ w r. ground (arith, eq_iff v.name local_machine))
      | inr n ↦ inr (v, q, λ e. ground (arith, eq_iff v.name local_machine))
    ]
  ]

  first_or_later :
      (s : WorkerConfig) (specs : List WorkerConfig) (w v : Worker)
      → new_worker parse_url s ≡ inr v
      → v.name ≢ local_machine
      → (Memᴰ w (load parse_url specs) → Configured parse_url specs w)
      → Memᴰ w (v ∷ load parse_url specs)
      → Configured parse_url (s ∷ specs) w
  first_or_later s specs w v q n rest (Memᴰ.head e) = record {
    spec = s;
    listed = Memᴰ.head refl;
    made = subst (λ x. new_worker parse_url s ≡ inr x) (sym e) q;
    not_local = subst (λ x. x.name ≢ local_machine) (sym e) n;
  }
  first_or_later s specs w v q n rest (Memᴰ.tail m) = Configured-cons s specs w (rest m)

  none_loaded : (w : Worker) → Memᴰ w (load parse_url []) → ⊥
  unfolding load
  none_loaded w m = elim m [ ]

  load-Configured :
      (specs : List WorkerConfig) (w : Worker)
      → Memᴰ w (load parse_url specs)
      → Configured parse_url specs w
  load-Configured [] w m = absurd (none_loaded w m)
  load-Configured (s ∷ specs) w m = load_entry s specs w (entry_cases s) (load-Configured specs w) m
    where
      load_entry :
          (s : WorkerConfig) (specs : List WorkerConfig) (w : Worker)
          → ((v : Worker) → new_worker parse_url s ≡ inr v → v.name ≡ local_machine)
            ⊎ ((v : Worker) × (new_worker parse_url s ≡ inr v) × (v.name ≢ local_machine))
          → (Memᴰ w (load parse_url specs) → Configured parse_url specs w)
          → Memᴰ w (load parse_url (s ∷ specs))
          → Configured parse_url (s ∷ specs) w
      load_entry s specs w (inl skip) rest m =
          Configured-cons s specs w (rest (subst (Memᴰ w) (load-skip s specs skip) m))
      load_entry s specs w (inr (v, q, n)) rest m =
          first_or_later s specs w v q n rest (subst (Memᴰ w) (load-take s specs v q n) m)

  Configured-load :
      (specs : List WorkerConfig) (spec : WorkerConfig) (w : Worker)
      → Memᴰ spec specs
      → new_worker parse_url spec ≡ inr w
      → w.name ≢ local_machine
      → Memᴰ w (load parse_url specs)
  Configured-load [] spec w m q n = elim m [ ]
  Configured-load (s ∷ specs) spec w (Memᴰ.head e) q n =
      subst (Memᴰ w) (sym (load-take s specs w (subst (λ x. new_worker parse_url x ≡ inr w) e q) n))
        (Memᴰ.head refl)
  Configured-load (s ∷ specs) spec w (Memᴰ.tail m) q n = elim (entry_cases s) [
    | inl skip ↦ subst (Memᴰ w) (sym (load-skip s specs skip)) (Configured-load specs spec w m q n)
    | inr (v, r, k) ↦
        subst (Memᴰ w) (sym (load-take s specs v r k))
          (Memᴰ.tail (Configured-load specs spec w m q n))
  ]

-- A worker is in the registry exactly if some configured entry makes it and it does not have the name
-- reserved for the coordinator itself.
pub load_iff :
    (parse_url : String → Option Url) (specs : List WorkerConfig) (w : Worker)
    → Memᴰ w (load parse_url specs) ↔ Configured parse_url specs w
load_iff parse_url specs w = (
  load-Configured parse_url specs w,
  λ c. Configured-load parse_url specs c.spec w c.listed c.made c.not_local,
)

find_first-some :
    (p : Worker → Bool) (ws : List Worker) (w : Worker)
    → find_first p ws ≡ some w
    → Memᴰ w ws × (p w ≡ true)
find_first-some p [] w h = cc
find_first-some p (v ∷ ws) w h = elim (Bool-cases (p v)) [
  | inl y ↦ (Memᴰ.head (ground arith), ground arith)
  | inr n ↦ let (m, q) = find_first-some p ws w (ground arith) in (Memᴰ.tail m, q)
]

find_first-none :
    (p : Worker → Bool) (ws : List Worker) (w : Worker)
    → find_first p ws ≡ none
    → Memᴰ w ws
    → p w ≡ false
find_first-none p [] w h m = elim m [ ]
find_first-none p (v ∷ ws) w h (Memᴰ.head e) =
    subst {A = Worker} (λ x. p x ≡ false) (sym e) (ground arith)
find_first-none p (v ∷ ws) w h (Memᴰ.tail m) = find_first-none p ws w (ground arith) m

-- What Resolve promises: the worker found is configured, and has the name asked for, or has it as its
-- host while no worker has it as its name.
pub record Resolves (parse_url : String → Option Url) (name : String) (r : Registry) (w : Worker)
    : Type 0 where
  pub listed : Memᴰ w r.workers
  pub matches :
      (w.name ≡ name)
      ⊎ ((has_host parse_url name w ≡ true) × ((v : Worker) → Memᴰ v r.workers → v.name ≢ name))

-- Resolve finds only such a worker, and it fails only where no worker has the name or the host.
pub resolve-Resolves :
    (parse_url : String → Option Url) (name : String) (r : Registry)
    → ((w : Worker) → resolve parse_url name r ≡ some w → Resolves parse_url name r w)
      × (resolve parse_url name r ≡ none
          → (w : Worker) → Memᴰ w r.workers
          → (w.name ≢ name) × (has_host parse_url name w ≡ false))
unfolding resolve
resolve-Resolves parse_url name r =
    elim (Option-cases (find_first (λ v. v.name == name) r.workers)) [
      | inl q ↦ (
        λ w e.
            let (m, h) = find_first-some (has_host parse_url name) r.workers w (ground arith) in
            record {
              listed = m;
              matches = inr (
                h,
                λ v k e'.
                    let f = find_first-none (λ u. u.name == name) r.workers v q k in
                    ground (arith, eq_iff v.name name),
              );
            },
        λ e w m.
            let f = find_first-none (λ u. u.name == name) r.workers w q m in
            (
              λ e'. ground (arith, eq_iff w.name name),
              find_first-none (has_host parse_url name) r.workers w (ground arith) m,
            ),
      )
      | inr (v, q) ↦ (
        λ w e.
            let (m, h) = find_first-some (λ u. u.name == name) r.workers v q in
            let same : v ≡ w = ground arith in
            record {
              listed = subst (λ x. Memᴰ x r.workers) same m;
              matches =
                  inl (subst {A = Worker} (λ x. x.name ≡ name) same ((eq_iff v.name name).0 h));
            },
        λ e. cc,
      )
    ]
