-- ===== src/Tests/ProxyTests.antt =====
-- proxy/proxy.go and proxy/handler.go at concrete inputs.
use llm_server_manager.Base.{
  ◌++◌, ◌≡◌, refl, ◌≢◌, true, false, none, some, List, [], ◌∷◌, lookup, All, arith, pos, ◌↔◌,
  String, ◌==◌, codes, keep, erase, if◌then◌else◌, ℕ, Option, ap, decimal, decimal_from,
}
use llm_server_manager.Models.{RunningServer, starting}
use llm_server_manager.Fleet.Registry.{WorkerSnapshot, online, offline}
use llm_server_manager.Fleet.Port.{routable_port, configured_port}
use llm_server_manager.Proxy.Table.{
  Target, Source, build, empty_build, sources, keys, PublishedModel,
}
use llm_server_manager.Proxy.Router.{Router, View, rebuild, invalidate}
use llm_server_manager.Proxy.Forward.{
  Upstream, answered, went_away, broke, bad_gateway, stopped_running, passed_through, Retry,
  forward, model, handle_generation,
}
use llm_server_manager.Proxy.Routes.{
  routes, add_routes, sources-routes, local_routes, worker_routes,
}
use llm_server_manager.Proxy.Published.{Distinct, ids, has_target, build-published}
use llm_server_manager.Proxy.Requests.{forward_lem}
use llm_server_manager.Tests.Samples.{llama, qwen, parse_url}
use Prim.Native.Char.{code}
use text.Mathlib.TextEquality.{Char-path}
use llm_server_manager.Handlers.Etag.{quoted, hex}
use llm_server_manager.Proxy.Replies.{reply_of}
use llm_server_manager.Proxy.Errors.{Means, handle_generation-Means}
use llm_server_manager.Proxy.Transport.{
  Request, direct, TransportError, connection_reset, other_error, forward_loop, upstream_of,
  written_of, is_written, forward_loop-forward, direct_lem,
}
use llm_server_manager.Proxy.Listing.{etag_input, models_etag, answer_list, unchanged, listed}
use llm_server_manager.Proxy.ListText.{answer_list-models_etag}

-- The local machine runs llama, and so does a worker, which also runs qwen; a second worker is offline.
abbrev local_server : RunningServer
local_server = record {
  model_config = llama;
  pid = 41;
  status = starting;
  start_time = 7000000000;
  crash_count = 0;
}

abbrev snapshots : List WorkerSnapshot
snapshots =
    record {
      worker = record { name = "gpu1"; url = "http://gpu1:8080"; api_key = "" };
      status = online;
      models = some (
          record { model_config = qwen; active = true }
          ∷ record { model_config = qwen; active = false }
          ∷ record { model_config = record llama { port = some (pos 9001) }; active = true }
          ∷ []);
      error = none;
    }
    ∷ record {
      worker = record { name = "gpu2"; url = "http://gpu2:8080"; api_key = "" };
      status = offline;
      models = none;
      error = none;
    }
    ∷ []

abbrev visited : List Source
visited =
    record { machine = "local"; host = "127.0.0.1"; warming = true; config = llama; created = 7 }
    ∷ record { machine = "gpu1"; host = "gpu1"; warming = false; config = qwen; created = 0 }
    ∷ record {
      machine = "gpu1";
      host = "gpu1";
      warming = false;
      config = record llama { port = some (pos 9001) };
      created = 0;
    }
    ∷ []

sources_visited : sources parse_url (some local_server) snapshots ≡ visited
unfolding sources
sources_visited = refl

abbrev here : Target
here = record { machine = "local"; host = "127.0.0.1"; port = 8081; warming = true }

abbrev there : Target
there = record { machine = "gpu1"; host = "gpu1"; port = 9001; warming = false }

sources-routes_example :
    lookup "gpt" (build (sources parse_url (some local_server) snapshots) empty_build).table
    ≡ add_routes none
        (local_routes "gpt" (some local_server) ++ worker_routes parse_url "gpt" snapshots)
sources-routes_example = sources-routes parse_url "gpt" (some local_server) snapshots

routes_gpt : routes "gpt" visited ≡ here ∷ there ∷ []
unfolding routable_port configured_port keys
routes_gpt = refl

build-published_example :
    let b = build visited empty_build in
    Distinct (ids b.entries)
    × All (λ e. (e.id ≢ "") × (has_target (lookup e.id b.table) ≡ true)) b.entries
build-published_example = build-published visited

abbrev view : View
view = record { sources = visited; done = 20 }

abbrev again : Retry
again = record { now = 10; view = view; later = 21 }

abbrev router : Router
router = record { table = []; entries = []; built_at = none; ttl = 2000 }

abbrev gone : Target → Upstream
gone t = went_away

abbrev up : Target → Upstream
up t = answered

-- A retry contacts the local server although it is still starting.
forward_lem_example :
    (gone there ≡ answered
      → forward gone up router "gpt" there again ≡ (router, passed_through there, there ∷ []))
    × (gone there ≡ broke
        → forward gone up router "gpt" there again ≡ (router, bad_gateway, there ∷ []))
    × (gone there ≡ went_away
        → let found = routes "gpt" visited in
          let (r', answer, contacted) = forward gone up router "gpt" there again in
          (r' ≡ rebuild (invalidate router "gpt") view)
          × (found ≡ [] → (answer ≡ stopped_running) × (contacted ≡ there ∷ []))
          × ((u : Target) (us : List Target)
              → found ≡ u ∷ us
              → (contacted ≡ there ∷ u ∷ [])
                × (up u ≡ answered → answer ≡ passed_through u)
                × (up u ≢ answered → answer ≡ bad_gateway)))
forward_lem_example = forward_lem gone up router "gpt" there again (omega arith)

handle_generation-Means_example :
    let (r', answer, contacted) = handle_generation gone up router (model "qwen") again again in
    Means gone up (reply_of answer) contacted
handle_generation-Means_example = handle_generation-Means gone up router (model "qwen") again again

abbrev resets : Target → Option TransportError
resets t = some connection_reset

abbrev breaks : Target → Option TransportError
breaks t = some other_error

forward_loop-forward_example :
    let (r1, writes) = forward_loop resets breaks router "gpt" there again in
    let (r2, answer, contacted) =
      forward
        (λ u. upstream_of (resets u))
        (λ u. upstream_of (breaks u))
        router
        "gpt"
        there
        again in
    (r1 ≡ r2) × (keep is_written writes ≡ written_of (reply_of answer) ∷ [])
forward_loop-forward_example = forward_loop-forward resets breaks router "gpt" there again

-- Knows the two names that matter here.
abbrev canonical : String → String
canonical name = if name == "api-key" then "Api-Key" else name

abbrev with_keys : Request
with_keys = record {
  host = "coordinator:8080";
  headers =
      ("Authorization", "Bearer k" ∷ []) ∷ ("Accept", "*/*" ∷ []) ∷ ("Api-Key", "k" ∷ []) ∷ [];
}

abbrev as_it_is : Request → Request
as_it_is r = r

only_accept :
    (direct canonical as_it_is "gpu1:9001" with_keys).headers ≡ ("Accept", "*/*" ∷ []) ∷ []
unfolding direct erase
only_accept = refl

direct_lem_example :
    let out = direct canonical as_it_is "gpu1:9001" with_keys in
    (out.host ≡ "gpu1:9001")
    × (lookup "Authorization" out.headers ≡ none)
    × (lookup "Api-Key" out.headers ≡ none)
    × ((name : String)
        → name ≢ "Authorization"
        → name ≢ "Api-Key"
        → lookup name out.headers ≡ lookup name with_keys.headers)
direct_lem_example = direct_lem canonical as_it_is "gpu1:9001" with_keys

codes_inj : (s t : String) → codes s ≡ codes t → s ≡ t
codes_inj String.[] String.[] e = refl
codes_inj String.[] (String.◌∷◌ d t) e = cc
codes_inj (String.◌∷◌ c s) String.[] e = cc
codes_inj (String.◌∷◌ c s) (String.◌∷◌ d t) e =
    let first : code c ≡ code d = cc in
    let rest : codes s ≡ codes t = cc in
    let same = Char-path c d first in let tail = codes_inj s t rest in cc

abbrev one_model : List PublishedModel
one_model = record { id = "gpt"; created = 7 } ∷ []

abbrev restarted : List PublishedModel
restarted = record { id = "gpt"; created = 8 } ∷ []

-- A sum that is the text's last bytes but one.
abbrev tail_sum : List ℕ → List ℕ
tail_sum (g ∷ p ∷ t ∷ z ∷ d ∷ rest) = d ∷ []
tail_sum _ = []

no_clash :
    quoted (tail_sum (etag_input codes one_model)) ≡ quoted (tail_sum (etag_input codes restarted))
    → etag_input codes one_model ≡ etag_input codes restarted
unfolding quoted hex etag_input decimal decimal_from
no_clash e = let z : true ≡ false = ap (λ t. t == "\"37\"") e in absurd (ground (arith, z))

answer_list-models_etag_example :
    let etag = models_etag codes tail_sum in
    let answer = answer_list (etag restarted) (etag one_model) restarted in
    ((answer ≡ unchanged (etag restarted)) ↔ (one_model ≡ restarted))
    × (one_model ≢ restarted → answer ≡ listed (etag restarted) restarted)
answer_list-models_etag_example =
    answer_list-models_etag codes codes_inj tail_sum one_model restarted
      ((refl, (refl, (refl, tt))), tt) ((refl, (refl, (refl, tt))), tt) no_clash
