-- ===== src/Tests/ServerTests.antt =====
-- server/server.go and config/config.go at concrete inputs.
use mathlib.Core.List.{Memᴰ}
use llm_server_manager.Base.{
  ◌≡◌, refl, ◌≢◌, String, true, false, none, some, List, [], ◌∷◌, ℕ, lookup, insert, strip_prefix?,
  trim_space, Bool, Option,
}
use llm_server_manager.Models.{ModelConfig}
use llm_server_manager.Config.{
  object, no_leaves, Config, text, proxy_from_json, parse_bool, Value, bool, null,
}
use llm_server_manager.Manager.State.{new}
use llm_server_manager.Fleet.Worker.{Worker}
use llm_server_manager.Fleet.Registry.{new_registry}
use llm_server_manager.Fleet.Workers.{Configured}
use llm_server_manager.Server.Index.{last_named}
use llm_server_manager.Server.Limits.{RateLimiter, get_limiter, body_limit}
use llm_server_manager.Server.Reload.{App, reload_config, reload_config_lem}
use llm_server_manager.Server.Watch.{Wake, file_event, timer, new_watcher, wake, watch}
use llm_server_manager.Tests.Samples.{llama, qwen, two_models, gpu_spec, parse_url}
use llm_server_manager.Config.Load.{Document, plain_text, fields, Viper}
use llm_server_manager.Config.Load as Config_load

abbrev twice : List ModelConfig
twice = qwen ∷ llama ∷ record qwen { model_path = "/models/b.gguf" } ∷ []

abbrev file : Config
file = record { models = twice; workers = gpu_spec ∷ []; proxy = false }

abbrev app : App
app = record { manager = new two_models 6; fleet = new_registry parse_url []; proxy_enabled = true }

reload_config_lem_example :
    let a' = (reload_config parse_url (some file) app).0 in
    ((k : String) → k ≢ "" → lookup k a'.manager.configs ≡ last_named k none twice)
    × ((w : Worker) → Memᴰ w a'.fleet.workers → Configured parse_url (gpu_spec ∷ []) w)
    × ((w : Worker) → Configured parse_url (gpu_spec ∷ []) w → Memᴰ w a'.fleet.workers)
    × ((url : String) → lookup url a'.fleet.cache ≡ none)
    × (a'.proxy_enabled ≡ false)
    × (a'.manager.server ≡ app.manager.server)
    × (a'.manager.cancel_func ≡ app.manager.cancel_func)
reload_config_lem_example = reload_config_lem parse_url file app

-- Buckets are numbers, and two addresses were seen.
abbrev pub limits : RateLimiter ℕ
limits = record {
  limiters =
      ("10.0.0.1", record { limiter = 3; last_used = 1 })
      ∷ ("10.0.0.2", record { limiter = 4; last_used = 90 })
      ∷ [];
  last_cleanup = 0;
  cleanup_interval = 20;
}

-- The first address is forgotten, the second keeps its bucket.
cleaned_up : get_limiter 9 "10.0.0.2" 100 limits ≡ (
  record {
    limiters = ("10.0.0.2", record { limiter = 4; last_used = 100 }) ∷ [];
    last_cleanup = 100;
    cleanup_interval = 20;
  },
  4,
)
unfolding get_limiter lookup insert
cleaned_up = refl

proxy_bodies :
    (body_limit "/v1/chat/completions" ≡ 10485760) × (body_limit "/api/v1/server/start" ≡ 1024)
unfolding body_limit strip_prefix?
proxy_bodies = (refl, refl)

-- Two writes of one save, and the timer that is due 300 ms after the second.
abbrev one_save : List (ℕ × Wake)
one_save =
    (0, file_event true true)
    ∷ (100000000, file_event true true)
    ∷ (350000000, timer)
    ∷ (400000000, timer)
    ∷ (500000000, timer)
    ∷ []

reloads_once : (watch new_watcher one_save).reloads ≡ 1
unfolding watch wake
reloads_once = refl

proxy_text : proxy_from_json (text " True ") ≡ some true
unfolding proxy_from_json parse_bool trim_space
proxy_text = refl

abbrev decode_bool : Value → Option Bool
decode_bool (bool b) = some b
decode_bool null = some false
decode_bool _ = none

abbrev document : Document
document = record {
  models = some twice;
  workers = plain_text " http://gpu1:8080 " ∷ fields gpu_spec ∷ [];
  proxy = some (text "TRUE");
}

abbrev loaded : Config
loaded = record {
  models = twice;
  workers = record { url = "http://gpu1:8080"; name = ""; api_key = "" } ∷ gpu_spec ∷ [];
  proxy = true;
}

abbrev from_document : Document → Document
from_document d = d

-- Drops an empty object.
abbrev kept : Option Value → Option Value
kept (some (object no_leaves)) = none
kept v = v

abbrev drop_empty : Document → Document
drop_empty d = record d { proxy = kept d.proxy }

abbrev viper : Viper
viper = record { file = some document; with_environment = from_document; settings = drop_empty }
