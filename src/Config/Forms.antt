-- ===== src/Config/Forms.antt =====
-- config/config.go: the two paths that decode the proxy setting, viper with flexHook for a file that is
-- loaded, and encoding/json for one that is saved.
use llm_server_manager.Base.{◌≡◌, refl, ◌⊎◌, Bool, Option, none, some, trim_space, arith, inl}
use llm_server_manager.Config.{
  Value, null, other, bool, text, object, parse_bool, set_or_refuse, proxy_from_json, becomes,
  refused, proxy_hook,
}

set_or_refuse_iff :
    (o : Option Bool)
    → ((b : Bool) → set_or_refuse o ≡ becomes b → o ≡ some b)
      × (set_or_refuse o ≡ refused → o ≡ none)
      × ((b : Bool) → o ≡ some b → set_or_refuse o ≡ becomes b)
set_or_refuse_iff none = (λ b e. cc, λ e. refl, λ b e. cc)
set_or_refuse_iff (some a) = (λ b e. ground arith, λ e. cc, λ b e. ground arith)

-- What the hook makes of a value is what the JSON path makes of it, and what it refuses the JSON path
-- refuses too: a setting that can be saved and that the hook decides is loaded as the same Boolean.
pub proxy_hook-proxy_from_json :
    (v : Value)
    → ((b : Bool) → proxy_hook v ≡ becomes b → proxy_from_json v ≡ some b)
      × (proxy_hook v ≡ refused → proxy_from_json v ≡ none)
      × ((b : Bool) → proxy_from_json v ≡ some b → (proxy_hook v ≡ becomes b) ⊎ (v ≡ null))
unfolding proxy_hook proxy_from_json
proxy_hook-proxy_from_json (bool b) = ground arith
proxy_hook-proxy_from_json (text s) =
    let (made, refuses, accepts) = set_or_refuse_iff (parse_bool (trim_space s)) in
    (made, refuses, λ b e. inl (accepts b e))
proxy_hook-proxy_from_json (object e) = ground arith
proxy_hook-proxy_from_json null = ground arith
proxy_hook-proxy_from_json other = ground arith
