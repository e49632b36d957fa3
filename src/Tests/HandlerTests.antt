-- ===== src/Tests/HandlerTests.antt =====
-- handlers/handlers.go at concrete inputs.
use llm_server_manager.Base.{
  ℕ, ◌≡◌, refl, ap, ◌≢◌, ◌⊎◌, String, ◌==◌, eq_iff, true, false, Option, none, some, List, [],
  if◌then◌else◌, ◌∷◌, any, codes, arith, trim_space, strip_prefix?, split_at, trim_prefix,
  ltb_float,
}
use llm_server_manager.Config.{Config}
use llm_server_manager.Manager.Validate.{validate_config, check_ranges}
use llm_server_manager.Handlers.Access.{
  is_valid_api_key, new_auth, allowed, bearer_key, require_auth,
}
use llm_server_manager.Handlers.Etag.{etag_matches, config_etag, hex}
use llm_server_manager.Handlers.EtagText.{config_etag-accepted}
use llm_server_manager.Handlers.SaveConfig.{
  content, Refusal, refused, saved, reload_pending, check_models, check_if_match, save_config,
  get_config, full, not_modified,
}
use llm_server_manager.Handlers.Saves.{Checked, save_config_lem, no_lost_update}
use llm_server_manager.Handlers.AtomicWrite.{
  Directory, Outcomes, succeeds, fails, write_atomic, write_atomic_lem,
}
use llm_server_manager.Models.{RunningServer, running}
use llm_server_manager.Manager.State.{Manager, get_current_server}
use llm_server_manager.Fleet.Worker.{RunningModel, running_from_items}
use llm_server_manager.Handlers.Items.{
  hide_unused, item_of, sort_items, items_of, local_model_items,
}
use llm_server_manager.Handlers.LocalItems.{
  Shows, RunsNamed, local_model_items-Shows, running_from_items-local,
}
use llm_server_manager.Tests.Samples.{llama, qwen}

abbrev key : String
key = "0123456789abcDEF"

key_valid : is_valid_api_key (codes key) ≡ true
unfolding is_valid_api_key
key_valid = refl

bearer : require_auth (new_auth key) "" "Bearer  0123456789abcDEF " ≡ allowed
unfolding require_auth new_auth bearer_key is_valid_api_key strip_prefix? trim_space
bearer = refl

abbrev other_key : String
other_key = "x"

abbrev origins : List String
origins = "http://a" ∷ "http://b" ∷ []

abbrev stranger : String
stranger = "http://c"

-- An ETag that quotes the content, and a decoder that knows two bodies.
abbrev quoted : String → String
quoted s = s

abbrev decode : String → Option Config
decode s =
    if s == "one"
    then some (record { models = llama ∷ []; workers = []; proxy = true })
    else if s == "two"
    then some (record { models = llama ∷ qwen ∷ []; workers = []; proxy = true })
    else none

first_save :
    save_config quoted decode "one" "old" (content "old") true true ≡ (content "one", saved "one")
unfolding save_config check_models check_if_match etag_matches validate_config check_ranges
    ltb_float trim_space trim_prefix strip_prefix? split_at
first_save = refl

save_config_lem_example :
    let (file', answer) = save_config quoted decode "one" "old" (content "old") true true in
    ((r : Refusal) → answer ≡ refused r → file' ≡ content "old")
    × ((etag : String)
        → (answer ≡ saved etag) ⊎ (answer ≡ reload_pending etag)
        → (file' ≡ content "one")
          × (etag ≡ "one")
          × Checked quoted decode "one" "old" (content "old"))
save_config_lem_example = save_config_lem quoted decode "one" "old" (content "old") true true

old_given : trim_space "old" ≢ ""
unfolding trim_space
old_given e = ground (arith, eq_iff "old" "")

old_no_star : trim_space "old" ≢ "*"
unfolding trim_space
old_no_star e = ground (arith, eq_iff "old" "*")

old_stale : etag_matches (trim_space "old") "one" ≡ false
unfolding etag_matches trim_space trim_prefix strip_prefix? split_at
old_stale = refl

no_lost_update_example :
    let after_first = (save_config quoted decode "one" "old" (content "old") true true).0 in
    let (file', answer) = save_config quoted decode "two" "old" after_first true true in
    (file' ≡ content "one") × ((r : Refusal) × (answer ≡ refused r))
no_lost_update_example =
    no_lost_update quoted decode (content "old") "one" "two" "old" "one" true true old_given
      old_no_star (ap (λ r. r.1) first_save) old_stale

abbrev no_rename : Outcomes
no_rename = record {
  at_create = succeeds;
  at_write = succeeds;
  at_sync = succeeds;
  at_close = succeeds;
  at_chmod = succeeds;
  at_rename = fails;
}

abbrev old_file : Directory
old_file = record { file = some "old"; temporary = none }

rename_failed : write_atomic no_rename "new" 6 old_file ≡ (old_file, false)
unfolding write_atomic
rename_failed = refl

write_atomic_lem_example :
    let (d', done) = write_atomic no_rename "new" 6 old_file in
    ((d'.file ≡ some "old") ⊎ (d'.file ≡ some "new")) × (done ≡ true → d'.file ≡ some "new")
write_atomic_lem_example = write_atomic_lem no_rename "new" 6 old_file

-- Two models in an order that is not that of their names, and llama runs as process 41.
abbrev manager : Manager
manager = record {
  configs = ("qwen", qwen) ∷ ("llama", llama) ∷ [];
  server = some (record {
    model_config = llama;
    pid = 41;
    status = running;
    start_time = 5;
    crash_count = 0;
  });
  cancel_func = some 0;
  max_retries = 6;
  stop_closed = false;
}

listed : local_model_items (41 ∷ []) manager ≡ (
  manager,
  record { model_config = llama; active = true }
      ∷ record { model_config = qwen; active = false }
      ∷ [],
)
unfolding local_model_items get_current_server sort_items items_of item_of hide_unused
listed = refl

local_model_items-Shows_example :
    let (m', items) = local_model_items (41 ∷ []) manager in Shows m'.server manager.configs items
local_model_items-Shows_example = local_model_items-Shows (41 ∷ []) manager

running_from_items-local_example :
    let (m', items) = local_model_items (41 ∷ []) manager in
    ((x : RunningModel) → running_from_items items ≡ some x → RunsNamed m'.server x.name)
    × (running_from_items items ≡ none
        → (s : RunningServer) → m'.server ≡ some s
        → s.status ≡ running
        → any (λ e. e.1.name == s.model_config.name) manager.configs ≡ false)
running_from_items-local_example = running_from_items-local (41 ∷ []) manager

abbrev two_bytes : String → List ℕ
two_bytes s = 171 ∷ 205 ∷ []

short_etag : config_etag two_bytes "a" ≡ "\"abcd\""
unfolding config_etag hex
short_etag = refl

config_etag-accepted_example :
    (get_config (config_etag two_bytes) "" (content "a") ≡ full (config_etag two_bytes "a") "a")
    × (get_config (config_etag two_bytes) (config_etag two_bytes "a") (content "a")
        ≡ not_modified (config_etag two_bytes "a"))
    × (check_if_match (config_etag two_bytes) (config_etag two_bytes "a") (content "a") ≡ none)
config_etag-accepted_example = config_etag-accepted two_bytes "a"
