-- ===== src/Config.antt =====
-- config/config.go: the configuration of workers and of the proxy, and the forms that a worker entry
-- and the proxy setting may take. The values are what the JSON and viper decoders hand over.
-- `Load` has Load, Reload and decodeConfig. The other children prove.
pub mod Forms
pub mod Load
pub mod Agree
use llm_server_manager.Base.{
  String, Bool, true, false, Option, none, some, List, ◌||◌, ◌==◌, if◌then◌else◌, trim_space,
}
use llm_server_manager.Models.{ModelConfig}

pub record WorkerConfig : Type 0 where
  pub url : String
  pub name : String
  pub api_key : String

pub record Config : Type 0 where
  pub models : List ModelConfig
  pub workers : List WorkerConfig
  pub proxy : Bool

-- The entry "enabled" of an object.
pub data Enabled : Type 0 where
  -- no_leaves: nothing in it but objects without leaves of their own, as in {}
  no_leaves absent not_a_bool : Enabled
  flag : Bool → Enabled

-- A decoded value, as far as the proxy setting looks into it; `other` is a number or a list.
pub data Value : Type 0 where
  null other : Value
  bool : Bool → Value
  text : String → Value
  object : Enabled → Value

-- strconv.ParseBool.
unfoldable pub parse_bool : String → Option Bool
parse_bool s =
    if s == "1" || s == "t" || s == "T" || s == "true" || s == "TRUE" || s == "True"
    then some true
    else if s == "0" || s == "f" || s == "F" || s == "false" || s == "FALSE" || s == "False"
    then some false
    else none

-- proxySettingFromObject.
unfoldable pub proxy_from_object : Enabled → Bool
proxy_from_object (flag b) = b
proxy_from_object _ = true

-- ProxySetting.UnmarshalJSON; `none` is an error. JSON's null leaves the bool as it was, false.
unfoldable pub proxy_from_json : Value → Option Bool
unfolding proxy_from_object parse_bool
proxy_from_json (object e) = some (proxy_from_object e)
proxy_from_json (text s) = parse_bool (trim_space s)
proxy_from_json (bool b) = some b
proxy_from_json null = some false
proxy_from_json other = none

-- What flexHook does with a value for the proxy setting: it sets it, refuses it, or passes it on to
-- the decoder.
pub data Hooked : Type 0 where
  becomes : Bool → Hooked
  refused passed_on : Hooked

abbrev pub set_or_refuse : Option Bool → Hooked
set_or_refuse none = refused
set_or_refuse (some b) = becomes b

unfoldable pub proxy_hook : Value → Hooked
unfolding proxy_from_object parse_bool
proxy_hook (bool b) = becomes b
proxy_hook (text s) = set_or_refuse (parse_bool (trim_space s))
proxy_hook (object e) = becomes (proxy_from_object e)
proxy_hook _ = passed_on

-- A plain text as a worker entry, on both paths.
unfoldable pub worker_from_text : String → WorkerConfig
worker_from_text s = record { url = trim_space s; name = ""; api_key = "" }
