-- ===== src/Proxy/Waiting.antt =====
-- proxy/proxy.go: a request that joined another's rebuild is let go, and with what table.
use llm_server_manager.Base.{
  ◌≡◌, refl, inl, inr, String, true, some, List, [], ◌∷◌, ℕ, eqb_iff, lookup, arith, sym,
  Bool-cases, ◌∙◌, ◌++◌, ◌+◌, ◌≤◌, suc, zero, ap, eqb, false,
}
use llm_server_manager.Proxy.Router.{Router, View, rebuild, invalidate}
use llm_server_manager.Proxy.Flight.{
  Stage, idle, entering, waiting, arrive, move, collecting, publishing, closing, Flight, is_closed,
  enter, advance, Event, call, act, forget, flight_step, fly, grounded,
}
use llm_server_manager.Proxy.InFlight.{owner_of, builder_of}
use llm_server_manager.Proxy.SingleFlight.{fly-Sound}

-- `n` steps of request `j`: the machines show something new at each.
abbrev pub steps : (ℕ → View) → ℕ → ℕ → List Event
steps shown j zero = []
steps shown j (suc n) = act j (shown (suc n)) ∷ steps shown j n

-- After `n` steps of request `j` and one of its own, request `i` has returned.
abbrev pub Freed : ℕ → ℕ → ℕ → Flight → Type 0
Freed i j n f =
    (shown : ℕ → View) → (fly f (steps shown j n ++ act i (shown 0) ∷ [])).threads i ≡ idle

module _ (i : ℕ) (name : String) (g : ℕ) where
  free_closed :
      (f : Flight) (j : ℕ) → f.threads i ≡ waiting name g → is_closed g f ≡ true → Freed i j 0 f
  unfolding fly flight_step advance
  free_closed f j w c shown = ground (arith, eqb_iff i i)

  free_closing :
      (f : Flight) (j : ℕ)
      → f.threads i ≡ waiting name g
      → f.threads j ≡ closing name g
      → Freed i j 1 f
  unfolding fly flight_step advance
  free_closing f j w b shown =
      free_closed (flight_step f (act j (shown 1))) j (ground (arith, eqb_iff j i))
        (ground (arith, eqb_iff g g)) shown

  free_publishing :
      (f : Flight) (j : ℕ) (seen : View)
      → f.threads i ≡ waiting name g
      → f.threads j ≡ publishing name g seen
      → Freed i j 2 f
  unfolding fly flight_step advance
  free_publishing f j seen w b shown =
      free_closing (flight_step f (act j (shown 2))) j (ground (arith, eqb_iff j i))
        (ground (arith, eqb_iff j j)) shown

  free_collecting :
      (f : Flight) (j : ℕ)
      → f.threads i ≡ waiting name g
      → f.threads j ≡ collecting name g
      → Freed i j 3 f
  unfolding fly flight_step advance
  free_collecting f j w b shown =
      free_publishing (flight_step f (act j (shown 3))) j (shown 3) (ground (arith, eqb_iff j i))
        (ground (arith, eqb_iff j j)) shown

  free_building :
      (f : Flight) (j : ℕ) (s : Stage)
      → f.threads i ≡ waiting name g
      → f.threads j ≡ s
      → builder_of s ≡ some (name, g)
      → (n : ℕ) × (n ≤ 3) × Freed i j n f
  free_building f j (collecting k h) w e b = (3, omega arith, free_collecting f j w (ground arith))
  free_building f j (publishing k h seen) w e b =
      (2, omega arith, free_publishing f j seen w (ground arith))
  free_building f j (closing k h) w e b = (1, omega arith, free_closing f j w (ground arith))
  free_building f j _ w e b = cc

-- In every reachable state, for a request that waits for a rebuild there is a request `j` such that, after
-- at most three steps of `j` and one of its own, taken one after the other, the waiting request has
-- returned, whatever the machines show at these steps.
pub waiting_ends :
    (r : Router) (es : List Event) (i : ℕ) (name : String) (g : ℕ)
    → let f = fly (grounded r) es in
      f.threads i ≡ waiting name g → (j : ℕ) × (n : ℕ) × (n ≤ 3) × Freed i j n f
waiting_ends r es i name g w =
    let f = fly (grounded r) es in
    elim ((fly-Sound r es).awaited i name g w) [
      | inl c ↦ (i, 0, omega arith, free_closed i name g f i w c)
      | inr (j, b) ↦
          let (n, few, freed) = free_building i name g f j (f.threads j) w refl b in
          (j, n, few, freed)
    ]

-- The name is forgotten and request `i` asks for it.
abbrev pub joining : String → ℕ → View → List Event
joining name i now = forget name ∷ call i name ∷ act i now ∷ []

-- Request `j` stores its table and ends the rebuild, and request `i` goes on.
abbrev pub ending : ℕ → ℕ → View → List Event
ending i j now = act j now ∷ act j now ∷ act i now ∷ []

-- What a step of request `i` at stage `s` does.
act_at :
    (f : Flight) (i : ℕ) (s : Stage) (v : View)
    → f.threads i ≡ s
    → flight_step f (act i v) ≡ advance i s v f
unfolding flight_step
act_at f i s v e = ap (λ t. advance i t v f) e

module _ (f : Flight) (i j : ℕ) (name : String) (g : ℕ) (seen now : View) where
  -- The states behind the two sequences.
  abbrev forgotten : Flight
  forgotten = record f { router = invalidate f.router name }

  abbrev behind_join : Flight
  behind_join = move i (waiting name g) (move i (entering name) forgotten)

  joins :
      f.threads i ≡ idle
      → lookup name f.inflight ≡ some g
      → fly f (joining name i now) ≡ behind_join
  unfolding fly flight_step advance enter
  joins free found =
      ap (λ (h : Flight). flight_step h (act i now)) (ap (λ t. arrive i name t forgotten) free)
      ∙ act_at (move i (entering name) forgotten) i (entering name) now
          (ground (arith, eqb_iff i i))
      ∙ ground (arith, found)

  abbrev stored : Flight
  stored = advance j (publishing name g seen) now behind_join

  abbrev ended : Flight
  ended = advance j (closing name g) now stored

  ends :
      behind_join.threads j ≡ publishing name g seen
      → ended.threads i ≡ waiting name g
      → fly behind_join (ending i j now) ≡ advance i (waiting name g) now ended
  unfolding fly advance
  ends at waits =
      ap (λ (h : Flight). flight_step (flight_step h (act j now)) (act i now))
        (act_at behind_join j (publishing name g seen) now at)
      ∙ ap (λ (h : Flight). flight_step h (act i now))
          (act_at stored j (closing name g) now (ground (arith, eqb_iff j j)))
      ∙ act_at ended i (waiting name g) now waits

-- In every reachable state: if a request has looked at the machines for its rebuild and has not stored the
-- table, another that has the name forgotten and then calls refresh joins that rebuild, and where no
-- other steps come between, it returns with the table of what the machines showed to the first, made
-- anew though nothing of what they show now is in it.
pub joined_rebuild_is_old :
    (r : Router) (es : List Event) (i j : ℕ) (name : String) (g : ℕ) (seen now : View)
    → let f = fly (grounded r) es in
      f.threads j ≡ publishing name g seen
      → f.threads i ≡ idle
      → let joined = fly f (joining name i now) in
        let f' = fly joined (ending i j now) in
        (joined.threads i ≡ waiting name g)
        × (f'.threads i ≡ idle)
        × (f'.rebuilds ≡ f.rebuilds + 1)
        × (f'.router ≡ rebuild (invalidate f.router name) seen)
unfolding advance
joined_rebuild_is_old r es i j name g seen now b free =
    let f = fly (grounded r) es in
    let found : lookup name f.inflight ≡ some g =
      ((fly-Sound r es).owned j name g (ap owner_of b)).0 in
    let apart : eqb i j ≡ false = elim (Bool-cases (eqb i j)) [
      | inl y ↦
          let same : i ≡ j = (eqb_iff i j).0 y in
          let z : idle ≡ publishing name g seen = sym free ∙ ap f.threads same ∙ b in cc
      | inr n ↦ n
    ] in
    let there = joins f i j name g seen now free found in
    let back =
      ends f i j name g seen now (ground (arith, apart, b))
        (ground (arith, eqb_iff i j, eqb_iff i i, eqb_iff j i)) in
    let whole = ap (λ h. fly h (ending i j now)) there ∙ back in
    (
      ap (λ (h : Flight). h.threads i) there ∙ ground (arith, eqb_iff i i),
      ap (λ (h : Flight). h.threads i) whole ∙ ground (arith, eqb_iff i i, eqb_iff g g),
      ap (λ (h : Flight). h.rebuilds) whole ∙ ground (arith, eqb_iff i i, eqb_iff g g),
      ap (λ (h : Flight). h.router) whole ∙ ground (arith, eqb_iff i i, eqb_iff g g),
    )
