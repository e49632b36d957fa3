-- ===== src/Tests/FleetTests.antt =====
-- fleet/client.go and fleet/fleet.go at concrete inputs.
use llm_server_manager.Base.{
  ◌≡◌, refl, ◌≢◌, inl, true, false, none, some, List, [], ◌∷◌, ℕ, codes, lookup, arith, map, String,
  ◌⊎◌, inr, ◌∙◌, sym, insert, ◌==◌, ap,
}
use llm_server_manager.Models.{ModelItem}
use llm_server_manager.Fleet.Port.{
  after, take_digits, value_at, match_here, find_port, digits_at, digits_value, check_port,
  parse_launch_port, routable_port, launch_port,
}
use llm_server_manager.Fleet.Worker.{
  Worker, connection_refused, Reply, no_reply, replied, list_models, local_machine,
}
use llm_server_manager.Fleet.Registry.{
  Registry, probe, cached, WorkerSnapshot, online, offline, store,
}
use llm_server_manager.Tests.Samples.{llama, custom, parse_url, two_models}
use llm_server_manager.Manager.State.{new}
use llm_server_manager.Fleet.Views.{FleetMachine, WorkerStatus}
use llm_server_manager.Fleet.Gather.{
  Sight, Event, act, gather, gather_step, advance_at, advance, looked, begin_snapshots, results,
}
use llm_server_manager.Handlers.FleetView.{get_fleet, list_workers}
use llm_server_manager.Handlers.FleetNames.{fleet_names}

-- `--ports` is not the flag, and the port behind `=` is found.
custom_port : routable_port custom ≡ some 9000
unfolding routable_port launch_port parse_launch_port check_port digits_value find_port match_here
    value_at digits_at take_digits after
custom_port = refl

abbrev command : List ℕ
command = codes "run --port=81x"

command_port : find_port command ≡ some (codes "81")
unfolding find_port match_here value_at digits_at take_digits after
command_port = refl

abbrev gpu1 : Worker
gpu1 = record { name = "gpu1"; url = "http://gpu1:8080/"; api_key = "" }

abbrev one_worker : Registry
one_worker = record { workers = gpu1 ∷ []; cache = []; cache_ttl = 2000 }

no_list : list_models {A = List ModelItem} (no_reply connection_refused) ≡ inl connection_refused
unfolding list_models
no_list = refl

abbrev listing : Reply (List ModelItem)
listing = replied 200 "" (some (record { model_config = llama; active = true } ∷ []))

nothing_cached : cached one_worker gpu1 5 ≡ none
unfolding cached lookup
nothing_cached = refl

may_be_cached : (probe gpu1 listing false).1 ≡ true
unfolding probe list_models
may_be_cached = refl

abbrev seen : WorkerSnapshot
seen = record {
  worker = record gpu1 { api_key = "0123456789abcdef" };
  status = online;
  models = some (record { model_config = llama; active = true } ∷ []);
  error = none;
}

abbrev gpu2 : Worker
gpu2 = record { name = "gpu2"; url = "http://gpu2:8080"; api_key = "" }

abbrev two_workers : Registry
two_workers = record { workers = gpu1 ∷ gpu2 ∷ []; cache = []; cache_ttl = 2000000000 }

abbrev refused_at : ℕ → Sight
refused_at now = record { now = now; reply = no_reply connection_refused; ended = false }

abbrev listed_at : ℕ → Sight
listed_at now = record { now = now; reply = listing; ended = false }

-- The second worker's goroutine is faster.
abbrev schedule : List Event
schedule =
    act 1 (refused_at 1)
    ∷ act 1 (refused_at 2)
    ∷ act 0 (listed_at 3)
    ∷ act 1 (refused_at 4)
    ∷ act 0 (listed_at 5)
    ∷ act 0 (listed_at 6)
    ∷ []

-- Either of the two workers.
abbrev Known : Worker → Type 0
Known w = (w ≡ gpu1) ⊎ (w ≡ gpu2)

apart : gpu1.url ≢ gpu2.url
apart e =
    let z : true ≡ false = sym (ap (λ u. u == "http://gpu2:8080") e) in absurd (ground (arith, z))

same_url : (v w : Worker) → Known v → Known w → v.url ≡ w.url → v ≡ w
same_url v w (inl p) (inl q) e = p ∙ sym q
same_url v w (inl p) (inr q) e =
    absurd (apart (sym (ap (λ (x : Worker). x.url) p) ∙ e ∙ ap (λ (x : Worker). x.url) q))
same_url v w (inr p) (inl q) e =
    absurd (apart (sym (ap (λ (x : Worker). x.url) q) ∙ sym e ∙ ap (λ (x : Worker). x.url) p))
same_url v w (inr p) (inr q) e = p ∙ sym q

abbrev gathered : List WorkerSnapshot
gathered =
    record {
      worker = gpu1;
      status = online;
      models = some (record { model_config = llama; active = true } ∷ []);
      error = none;
    }
    ∷ record { worker = gpu2; status = offline; models = none; error = some connection_refused }
    ∷ []

gathered_so :
    results (gather parse_url (begin_snapshots two_workers) schedule).slots ≡ some gathered
unfolding results gather gather_step advance_at advance looked cached probe store lookup list_models
gathered_so = refl

fleet_names_example :
    let names : List String = "gpu1" ∷ "gpu2" ∷ [] in
    (map (λ (m : FleetMachine). m.machine) (get_fleet [] (new two_models 6) gathered).1
      ≡ local_machine ∷ names)
    × (map (λ (s : WorkerStatus). s.name) (list_workers gathered) ≡ names)
fleet_names_example =
    fleet_names Known same_url parse_url two_workers schedule gathered [] (new two_models 6)
      (inl refl, (inr refl, tt)) tt (tt, (tt, (tt, (tt, (tt, (tt, tt)))))) gathered_so

-- Two entries for one address: the second machine is shown under the name of the first.
abbrev twins : Registry
twins = record two_workers { workers = gpu1 ∷ record gpu1 { name = "twin" } ∷ [] }

abbrev one_after_other : List Event
one_after_other =
    act 0 (listed_at 1) ∷ act 0 (listed_at 2) ∷ act 0 (listed_at 3) ∷ act 1 (listed_at 4) ∷ []

twin_named_wrongly :
    results (gather parse_url (begin_snapshots twins) one_after_other).slots
    ≡ some (
        record {
          worker = gpu1;
          status = online;
          models = some (record { model_config = llama; active = true } ∷ []);
          error = none;
        }
        ∷ record {
          worker = gpu1;
          status = online;
          models = some (record { model_config = llama; active = true } ∷ []);
          error = none;
        }
        ∷ [])
unfolding results gather gather_step advance_at advance looked cached probe store lookup insert
    list_models
twin_named_wrongly = refl
