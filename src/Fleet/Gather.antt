-- ===== src/Fleet/Gather.antt =====
-- fleet/fleet.go: Snapshots, where one goroutine for each worker runs Snapshot. A step of a goroutine is what
-- it does under the cache's mutex in one piece, or its probe; a schedule takes the steps in any order,
-- with other requests' probes and reloads between them.
use llm_server_manager.Base.{Bool, String, Option, none, some, List, [], ◌∷◌, ℕ, zero, suc, map}
use llm_server_manager.Models.{ModelItem}
use llm_server_manager.Config.{WorkerConfig}
use llm_server_manager.Fleet.Worker.{Url, Worker, Reply}
use llm_server_manager.Fleet.Registry.{
  Registry, WorkerSnapshot, cached, probe, store, snapshot, reload,
}

-- Where a goroutine stands: before its look into the cache, before or behind its probe, or at its end.
pub data Stage : Type 0 where
  looking asking : Stage
  storing : WorkerSnapshot → Bool → Stage
  done : WorkerSnapshot → Stage

pub record Slot : Type 0 where
  pub worker : Worker
  pub stage : Stage

pub record Gather : Type 0 where
  pub registry : Registry
  pub slots : List Slot

-- What the world shows to a step: the time, the worker's reply, and whether the caller's context has
-- ended.
pub record Sight : Type 0 where
  pub now : ℕ
  pub reply : Reply (List ModelItem)
  pub ended : Bool

-- The cached snapshot, or the way to the probe.
unfoldable pub looked : Option WorkerSnapshot → Stage
looked none = asking
looked (some snap) = done snap

-- One step of Snapshot.
unfoldable pub advance : Registry → Worker → Stage → Sight → Registry × Stage
unfolding looked
advance r w looking s = (r, looked (cached r w s.now))
advance r w asking s =
    let (snap, cacheable) = probe w s.reply s.ended in (r, storing snap cacheable)
advance r w (storing snap cacheable) s = (store r w s.now (snap, cacheable), done snap)
advance r w (done snap) s = (r, done snap)

-- The goroutine at a position takes a step.
unfoldable pub advance_at : Registry → List Slot → ℕ → Sight → Gather
unfolding advance
advance_at r [] i s = record { registry = r; slots = [] }
advance_at r (slot ∷ slots) zero s =
    let (r', stage) = advance r slot.worker slot.stage s in
    record { registry = r'; slots = record slot { stage = stage } ∷ slots }
advance_at r (slot ∷ slots) (suc i) s =
    let rest = advance_at r slots i s in record rest { slots = slot ∷ rest.slots }

pub data Event : Type 0 where
  act : ℕ → Sight → Event
  -- another request's Snapshot of a worker: the times of its look and of its store
  elsewhere : Worker → Sight → ℕ → Event
  reloaded : List WorkerConfig → Event

unfoldable pub gather_step : (String → Option Url) → Gather → Event → Gather
unfolding advance_at
gather_step parse_url g (act i s) = advance_at g.registry g.slots i s
gather_step parse_url g (elsewhere w s later) = record g {
  registry = (snapshot g.registry w s.now s.reply s.ended later).0;
}
gather_step parse_url g (reloaded specs) = record g { registry = reload parse_url specs g.registry }

unfoldable pub gather : (String → Option Url) → Gather → List Event → Gather
unfolding gather_step
gather parse_url g [] = g
gather parse_url g (e ∷ es) = gather parse_url (gather_step parse_url g e) es

abbrev pub slot_of : Worker → Slot
slot_of w = record { worker = w; stage = looking }

-- Snapshots at its start; Workers gives the registry's workers in config order.
abbrev pub begin_snapshots : Registry → Gather
begin_snapshots r = record { registry = r; slots = map slot_of r.workers }

abbrev pub with_result : Stage → Option (List WorkerSnapshot) → Option (List WorkerSnapshot)
with_result (done snap) (some snaps) = some (snap ∷ snaps)
with_result _ _ = none

-- What Snapshots returns once every goroutine is at its end.
unfoldable pub results : List Slot → Option (List WorkerSnapshot)
results [] = some []
results (slot ∷ slots) = with_result slot.stage (results slots)
