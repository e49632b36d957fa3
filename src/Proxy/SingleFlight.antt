-- ===== src/Proxy/SingleFlight.antt =====
-- proxy/proxy.go: what refresh promises to requests that come together.
use llm_server_manager.Base.{
  ◌≡◌, refl, String, some, List, [], ◌∷◌, ℕ, lookup, arith, if_cases, option_cases,
}
use llm_server_manager.Proxy.Router.{Router, View}
use llm_server_manager.Proxy.Flight.{
  Stage, idle, entering, waiting, collecting, publishing, closing, deleting, Flight, is_closed,
  advance, Event, call, act, forget, arrive, flight_step, fly, grounded,
}
use llm_server_manager.Proxy.InFlight.{owner_of, Sound, plain, begin, join, close_group, remove}

advance-Sound :
    (i : ℕ) (s : Stage) (v : View) (f : Flight)
    → f.threads i ≡ s
    → Sound f
    → Sound (advance i s v f)
unfolding advance
advance-Sound i idle v f e inv = inv
advance-Sound i (entering name) v f e inv =
    option_cases Sound (lookup name f.inflight)
      (λ absent. begin f.threads f.inflight f.closed f.next i inv name e absent)
      (λ g found. join f.threads f.inflight f.closed f.next i inv name g e found)
advance-Sound i (waiting name g) v f e inv =
    if_cases Sound (is_closed g f)
      (λ _.
        plain f.threads f.inflight f.closed f.next i inv idle (ground arith) (ground arith)
          (λ k h q. cc))
      (λ _. inv)
advance-Sound i (collecting name g) v f e inv =
    plain f.threads f.inflight f.closed f.next i inv (publishing name g v) (ground arith)
      (ground arith) (λ k h q. cc)
advance-Sound i (publishing name g seen) v f e inv =
    plain f.threads f.inflight f.closed f.next i inv (closing name g) (ground arith) (ground arith)
      (λ k h q. cc)
advance-Sound i (closing name g) v f e inv =
    close_group f.threads f.inflight f.closed f.next i inv name g e
advance-Sound i (deleting name g) v f e inv =
    remove f.threads f.inflight f.closed f.next i inv name g e

arrive-Sound :
    (i : ℕ) (name : String) (s : Stage) (f : Flight)
    → f.threads i ≡ s
    → Sound f
    → Sound (arrive i name s f)
arrive-Sound i name idle f e inv =
    plain f.threads f.inflight f.closed f.next i inv (entering name) (ground arith) (ground arith)
      (λ k h q. cc)
arrive-Sound i name _ f e inv = inv

pub flight_step-Sound : (f : Flight) (e : Event) → Sound f → Sound (flight_step f e)
unfolding flight_step
flight_step-Sound f (call i name) inv = arrive-Sound i name (f.threads i) f refl inv
flight_step-Sound f (act i v) inv = advance-Sound i (f.threads i) v f refl inv
flight_step-Sound f (forget name) inv = inv

fly-keeps_Sound : (f : Flight) (es : List Event) → Sound f → Sound (fly f es)
unfolding fly
fly-keeps_Sound f [] inv = inv
fly-keeps_Sound f (e ∷ es) inv = fly-keeps_Sound (flight_step f e) es (flight_step-Sound f e inv)

grounded-Sound : (r : Router) → Sound (grounded r)
unfolding lookup
grounded-Sound r = record {
  owned = λ i name g o. cc;
  unique = λ i j name name' g o o'. cc;
  entry = λ name g o. cc;
  awaited = λ i name g w. cc;
}

-- In every reachable state the map, the groups and the requests fit together.
pub fly-Sound : (r : Router) (es : List Event) → Sound (fly (grounded r) es)
fly-Sound r es = fly-keeps_Sound (grounded r) es (grounded-Sound r)

-- However requests interleave, there are never two at a time that rebuild for the same name.
pub single_flight :
    (r : Router) (es : List Event) (i j : ℕ) (name : String) (g h : ℕ)
    → owner_of ((fly (grounded r) es).threads i) ≡ some (name, g)
    → owner_of ((fly (grounded r) es).threads j) ≡ some (name, h)
    → (i ≡ j) × (g ≡ h)
single_flight r es i j name g h o p =
    let inv = fly-Sound r es in
    let same : g ≡ h = ground (arith, inv.owned i name g o, inv.owned j name h p) in
    (inv.unique i j name name g o (ground arith), same)
