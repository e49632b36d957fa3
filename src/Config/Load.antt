-- ===== src/Config/Load.antt =====
-- config/config.go: Load, Reload and decodeConfig, and WorkerConfig on both decoding paths. viper and the
-- decoders are parameters: what they hand over for a key is an argument.
use llm_server_manager.Base.{
  ◌≡◌, ◌≢◌, Bool, false, Option, none, some, List, [], ◌∷◌, String, ◌>>=◌,
}
use llm_server_manager.Models.{ModelConfig}
use llm_server_manager.Config.{
  WorkerConfig, Config, Value, object, no_leaves, becomes, refused, passed_on, proxy_hook,
  proxy_from_json, worker_from_text,
}

-- An entry of the list of workers: a text, an object whose fields decode, or something else.
pub data WorkerValue : Type 0 where
  plain_text : String → WorkerValue
  fields : WorkerConfig → WorkerValue
  unusable : WorkerValue

-- A decoded file: the models, where they decode, the entries of the workers and the proxy setting.
pub record Document : Type 0 where
  pub models : Option (List ModelConfig)
  pub workers : List WorkerValue
  pub proxy : Option Value

-- WorkerConfig.UnmarshalJSON.
unfoldable pub worker_from_json : WorkerValue → Option WorkerConfig
unfolding worker_from_text
worker_from_json (plain_text s) = some (worker_from_text s)
worker_from_json (fields w) = some w
worker_from_json unusable = none

-- What flexHook makes of a worker's entry: a WorkerConfig, or the value as it was.
unfoldable pub worker_hook : WorkerValue → WorkerValue
unfolding worker_from_text
worker_hook (plain_text s) = fields (worker_from_text s)
worker_hook v = v

-- mapstructure decodes what the hook leaves.
abbrev pub decode_fields : WorkerValue → Option WorkerConfig
decode_fields (fields w) = some w
decode_fields (plain_text s) = none
decode_fields unusable = none

-- All entries of a list, or nothing where one is refused.
unfoldable pub decode_all :
    (WorkerValue → Option WorkerConfig) → List WorkerValue → Option (List WorkerConfig)
decode_all decode [] = some []
decode_all decode (v ∷ vs) =
    let rest = decode_all decode vs in
    elim (decode v) [ none ↦ none | some w ↦ elim rest [ none ↦ none | some ws ↦ some (w ∷ ws) ] ]

module _ (decode_bool : Value → Option Bool) where
  -- The proxy setting on viper's path: the hook, and the decoder for what it passes on. A key that is
  -- not there leaves false.
  unfoldable pub proxy_from_viper : Option Value → Option Bool
  unfolding proxy_hook
  proxy_from_viper none = some false
  proxy_from_viper (some v) = elim (proxy_hook v) [
    | becomes b ↦ some b
    | refused ↦ none
    | passed_on ↦ decode_bool v
  ]

  -- decodeConfig.
  unfoldable pub decode_config : Document → Option Config
  unfolding proxy_from_viper decode_all worker_hook
  decode_config d = do
    ms ← d.models
    ws ← decode_all (λ v. decode_fields (worker_hook v)) d.workers
    p ← proxy_from_viper d.proxy
    some (record { models = ms; workers = ws; proxy = p })

-- The proxy setting on the path of encoding/json.
abbrev pub proxy_setting : Option Value → Option Bool
proxy_setting none = some false
proxy_setting (some v) = proxy_from_json v

-- json.Unmarshal of a Config, as SaveConfig calls it.
unfoldable pub unmarshal_config : Document → Option Config
unfolding decode_all worker_from_json proxy_from_json
unmarshal_config d = do
  ms ← d.models
  ws ← decode_all worker_from_json d.workers
  p ← proxy_setting d.proxy
  some (record { models = ms; workers = ws; proxy = p })

-- What viper has after ReadInConfig, or nothing where that fails. AutomaticEnv, which only Load calls,
-- lets environment variables stand for keys of the file; `settings` is what viper hands to the decoder.
pub record Viper : Type 0 where
  pub file : Option Document
  pub with_environment : Document → Document
  pub settings : Document → Document

-- viper drops empty objects from what it hands over, as a note in config.go says.
pub record DropsEmpty (settings : Document → Document) : Type 0 where
  pub drops :
      (d : Document) → d.proxy ≡ some (object no_leaves) → settings d ≡ record d { proxy = none }
  pub keeps : (d : Document) → d.proxy ≢ some (object no_leaves) → settings d ≡ d

-- Load.
unfoldable pub load : (Value → Option Bool) → Viper → Option Config
unfolding decode_config
load decode_bool v = do d ← v.file; decode_config decode_bool (v.settings (v.with_environment d))

-- Reload.
unfoldable pub reload : (Value → Option Bool) → Viper → Option Config
unfolding decode_config
reload decode_bool v = do d ← v.file; decode_config decode_bool (v.settings d)
