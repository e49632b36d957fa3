-- ===== src/Tests/ClientTests.antt =====
-- handlers/handlers.go and tools/cli/commands: a client's session at concrete inputs.
use llm_server_manager.Base.{
  ◌≡◌, refl, eq_iff, String, true, false, none, some, ltb_float, lookup, arith, ℤ, pos, negsuc,
  Float64, float_of, nan, finite, ◌/◌, ◌^◌, [], ◌∷◌,
}
use llm_server_manager.Manager.State.{new}
use llm_server_manager.Manager.Validate.{validate_start, validate_config, check_ranges}
use llm_server_manager.Manager.World.{World, boot}
use llm_server_manager.Handlers.Access.{require_api_key, new_auth, allowed}
use llm_server_manager.Handlers.Endpoints.{ok, start_endpoint, stop_endpoint, running_endpoint}
use llm_server_manager.Handlers.Session.{started_server, session_lem}
use llm_server_manager.Cli.{has_scheme, get_server_url, key_header, command_path}
use llm_server_manager.Cli.Key.{get_server_url-has_scheme, key_header-admitted}
use llm_server_manager.Tests.Samples.{llama, two_models, all_there}
use llm_server_manager.Models.{ModelItem}
use llm_server_manager.Cli.Tables.{
  run_list, data_models, array, table, text, run_fleet, machines, fleet_table,
}
use llm_server_manager.Cli.Agree.{encode_items, run_list-encode_items}

abbrev fresh : World
fresh = boot (new two_models 6)

llama_found : lookup "llama" fresh.manager.configs ≡ some llama
unfolding boot new lookup
llama_found = refl

llama_valid : validate_start all_there llama ≡ none
unfolding validate_start validate_config check_ranges ltb_float
llama_valid = refl

session_lem_example :
    let (w1, r1) = start_endpoint all_there "llama" 5 fresh in
    let (w2, r2) = running_endpoint w1 in
    let (w3, r3) = stop_endpoint all_there "llama" w2 in
    let (w4, r4) = running_endpoint w3 in
    (r1 ≡ ok (some (started_server llama 5)))
    × (r2 ≡ r1)
    × (r3 ≡ ok none)
    × (r4.success ≡ false)
    × (w4.manager.server ≡ none)
    × (w4.signalled ≡ fresh.signalled)
    × (w4.manager.configs ≡ fresh.manager.configs)
unfolding boot new
session_lem_example =
    session_lem all_there "llama" 5 fresh llama refl refl llama_found refl llama_valid
      (λ e. ground (arith, eq_iff "llama" ""))

get_server_url-has_scheme_example : has_scheme (get_server_url (some ":8080") "") ≡ true
get_server_url-has_scheme_example = get_server_url-has_scheme (some ":8080") ""

key_header-admitted_example :
    (require_api_key (new_auth "a1") (key_header "a1") ≡ allowed)
    × ((new_auth "a1").enabled ≡ true
        → require_api_key (new_auth "a1") (key_header "b2") ≡ allowed
        → ◌≡◌ {A = String} "b2" "a1")
key_header-admitted_example = key_header-admitted "a1" "b2"

worker_path : command_path "gpu1" "llama" "start" ≡ "/api/v1/workers/gpu1/models/llama/start"
unfolding command_path
worker_path = refl

abbrev to_float : ℤ → Float64
to_float (pos n) = float_of n
to_float (negsuc n) = nan

abbrev truncate : Float64 → ℤ
truncate (finite (pos n)) = pos (n / 2 ^ 1074)
truncate _ = pos 0

abbrev cold : ModelItem
cold = record { model_config = record llama { temperature = float_of 0 }; active = true }

run_list-encode_items_example :
    run_list truncate false (data_models (array (encode_items to_float (cold ∷ []))))
    ≡ table (
        record {
          name = some (text "llama");
          model_path = some (text "/models/a.gguf");
          context_size = none;
          temperature = none;
          threads = some (pos 8);
          active = true;
        }
        ∷ [])
run_list-encode_items_example =
    run_list-encode_items to_float truncate (cold ∷ []) ((refl, λ z e. cc), tt)

-- The refusal of a key has no data, and is shown as no machines.
refused_key : run_fleet (machines false []) ≡ fleet_table []
unfolding run_fleet
refused_key = refl
