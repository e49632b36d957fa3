-- ===== src/Proxy/Flight.antt =====
-- proxy/proxy.go: refresh, by which requests for one name that come together share one rebuild. Each
-- step is what runs under a mutex in one piece, or one operation on a channel; requests are threads by
-- number, and a schedule takes their steps in any order.
use llm_server_manager.Base.{
  String, Bool, none, some, List, [], ◌∷◌, ℕ, ◌+◌, eqb, if◌then◌else◌, lookup, insert, erase, any,
}
use llm_server_manager.Proxy.Router.{Router, View, rebuild, invalidate}

-- Where a request stands. A number names a refreshGroup, whose channel is closed when its rebuild is
-- done.
pub data Stage : Type 0 where
  idle : Stage
  -- before the test of the map
  entering : String → Stage
  -- reading from the group's channel
  waiting : String → ℕ → Stage
  -- the map has the request's own group; rebuild has not looked at the machines
  collecting : String → ℕ → Stage
  -- rebuild has looked, and has not stored the table
  publishing : String → ℕ → View → Stage
  -- before close(g.done)
  closing : String → ℕ → Stage
  -- before delete(p.inflight, name)
  deleting : String → ℕ → Stage

-- `next` is the next group's number, `closed` are the groups whose channel is closed, and `rebuilds`
-- counts the tables stored.
pub record Flight : Type 0 where
  pub threads : ℕ → Stage
  pub inflight : List (String × ℕ)
  pub closed : List ℕ
  pub next : ℕ
  pub router : Router
  pub rebuilds : ℕ

abbrev pub update : (ℕ → Stage) → ℕ → Stage → ℕ → Stage
update f i s j = if eqb i j then s else f j

abbrev pub move : ℕ → Stage → Flight → Flight
move i s f = record f { threads = update f.threads i s }

abbrev pub is_closed : ℕ → Flight → Bool
is_closed g f = any (eqb g) f.closed

-- The first critical section: join the rebuild in flight, or begin one.
unfoldable pub enter : ℕ → String → Flight → Flight
enter i name f = elim (lookup name f.inflight) [
  | some g ↦ move i (waiting name g) f
  | none ↦
      move i (collecting name f.next)
        (record f { inflight = insert name f.next f.inflight; next = f.next + 1 })
]

-- One step of a thread. `v` is what the machines show, where the step looks at them.
unfoldable pub advance : ℕ → Stage → View → Flight → Flight
unfolding enter
advance i idle v f = f
advance i (entering name) v f = enter i name f
advance i (waiting name g) v f = if is_closed g f then move i idle f else f
advance i (collecting name g) v f = move i (publishing name g v) f
advance i (publishing name g seen) v f =
    move i (closing name g) (record f { router = rebuild f.router seen; rebuilds = f.rebuilds + 1 })
advance i (closing name g) v f = move i (deleting name g) (record f { closed = g ∷ f.closed })
advance i (deleting name g) v f = move i idle (record f { inflight = erase name f.inflight })

pub data Event : Type 0 where
  -- refresh is called; a thread that is busy does not call it
  call : ℕ → String → Event
  act : ℕ → View → Event
  forget : String → Event

abbrev pub arrive : ℕ → String → Stage → Flight → Flight
arrive i name idle f = move i (entering name) f
arrive i name s f = f

unfoldable pub flight_step : Flight → Event → Flight
unfolding advance
flight_step f (call i name) = arrive i name (f.threads i) f
flight_step f (act i v) = advance i (f.threads i) v f
flight_step f (forget name) = record f { router = invalidate f.router name }

unfoldable pub fly : Flight → List Event → Flight
fly f [] = f
fly f (e ∷ es) = fly (flight_step f e) es

abbrev pub grounded : Router → Flight
grounded r = record {
  threads = λ i. idle;
  inflight = [];
  closed = [];
  next = 0;
  router = r;
  rebuilds = 0;
}
