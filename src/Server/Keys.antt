-- ===== src/Server/Keys.antt =====
-- server/server.go: the key that a request needs, and the switch of the proxy.
use llm_server_manager.Base.{
  ◌≡◌, ◌≢◌, refl, sym, ◌∙◌, ◌⊎◌, inl, inr, Bool, true, false, String, ◌==◌, eq_iff, Option, some,
  List, ◌++◌, ℕ, arith, ap, subst, codes, strip_prefix?, trim_space, Bool-cases,
}
use llm_server_manager.Config.{Config}
use llm_server_manager.Fleet.Worker.{Url}
use llm_server_manager.Handlers.Access.{
  Auth, allowed, new_auth, is_valid_api_key, require_auth, cors, passes,
}
use llm_server_manager.Handlers.Admission.{require_api_key_lem, require_auth_lem}
use llm_server_manager.Proxy.Replies.{disabled}
use llm_server_manager.Server.Limits.{RateLimiter, refuses_length}
use llm_server_manager.Server.Reload.{App, reload_config}
use llm_server_manager.Server.Routes.{api, v1, Group, Route, router_routes}
use llm_server_manager.Server.Chain.{
  Request, Found, matched, Gates, reached, proxy_error, group_gate, body_gate, limit, route_request,
  behind_cors, serve, Outcome,
}
use llm_server_manager.Server.Gates.{GroupAdmits, serve-reached}

v1_has_key :
    (env : String) (r : Request)
    → env ≢ ""
    → is_valid_api_key (codes env) ≡ true
    → require_auth (new_auth env) r.api_key r.authorization ≡ allowed
    → (r.api_key ≡ env)
      ⊎ ((rest : String) × (strip_prefix? "Bearer " r.authorization ≡ some rest)
          × (trim_space rest ≡ env))
v1_has_key env r n v h =
    let (with_header, without) = require_auth_lem env r.api_key r.authorization n v in
    elim (Bool-cases (r.api_key == "")) [
      | inl none_given ↦
          let e : r.api_key ≡ "" = ground (arith, eq_iff r.api_key "") in
          inr (without.0 (subst (λ k. require_auth (new_auth env) k r.authorization ≡ allowed) e h))
      | inr given ↦
          let m : r.api_key ≢ "" = λ q. ground (arith, eq_iff r.api_key "", q) in
          inl (((require_api_key_lem env r.api_key).1 n v).0 (sym (with_header m) ∙ h))
    ]

-- With a well-formed key in the environment, whoever reaches a handler of /api/v1 sent that key in the
-- api-key header, and whoever reaches one of /v1 sent it there or behind Bearer in the Authorization
-- header, whatever mux finds and however the other limits are set.
pub reached_has_key :
    {Bucket : Type 0} (allow : Bucket → ℕ → Bucket × Bool) (fresh : Bucket)
    (find : List Route → String → String → Found) (ui : List Route) (env : String)
    (origins : List String) (proxy : Bool) (r : Request) (now : ℕ) (rl : RateLimiter Bucket)
    (b : Route)
    → env ≢ ""
    → is_valid_api_key (codes env) ≡ true
    → (serve allow fresh find ui
        (record { auth = new_auth env; allowed_origins = origins; proxy_enabled = proxy })
        r
        now
        rl).1
      ≡ reached b
    → (b.group ≡ api → r.api_key ≡ env)
      × (b.group ≡ v1
          → (r.api_key ≡ env)
            ⊎ ((rest : String) × (strip_prefix? "Bearer " r.authorization ≡ some rest)
                × (trim_space rest ≡ env)))
reached_has_key allow fresh find ui env origins proxy r now rl b n v e =
    let g : Gates = record {
      auth = new_auth env;
      allowed_origins = origins;
      proxy_enabled = proxy;
    } in
    let h = (serve-reached allow fresh g r now rl find ui b).0 e in
    (
      λ q. ((require_api_key_lem env r.api_key).1 n v).0 (subst (GroupAdmits g r) q h.4),
      λ q.
          let admits : GroupAdmits g r v1 = subst (GroupAdmits g r) q h.4 in
          v1_has_key env r n v admits.1,
    )

off_group_gate :
    (g : Gates) (r : Request) (group : Group) (next : Outcome)
    → g.proxy_enabled ≡ false
    → group ≡ v1
    → group_gate g r group next ≡ proxy_error disabled
unfolding group_gate
off_group_gate g r group next off q = ap (λ x. group_gate g r x next) q ∙ ground arith

-- What is left to decide for a request that is within the limits.
within_limits :
    {Bucket : Type 0} (allow : Bucket → ℕ → Bucket × Bool) (fresh : Bucket)
    (find : List Route → String → String → Found) (ui : List Route) (g : Gates) (r : Request)
    (now : ℕ) (rl : RateLimiter Bucket) (b : Route) (o : Option String)
    → cors g.allowed_origins r.origin r.method ≡ passes o
    → find (router_routes ++ ui) r.method r.path ≡ matched b
    → (limit allow fresh r.remote_addr now rl).1 ≡ true
    → refuses_length r.path r.content_length ≡ false
    → (serve allow fresh find ui g r now rl).1 ≡ group_gate g r b.group (reached b)
unfolding serve route_request body_gate behind_cors
within_limits allow fresh find ui g r now rl b o passed found ok small =
    ap
      (λ c.
        (behind_cors c rl
          (route_request allow fresh g r now (find (router_routes ++ ui) r.method r.path) rl)).1)
      passed
    ∙ ap (λ f. (route_request allow fresh g r now f rl).1) found
    ∙ ground arith

-- After a reload of a configuration that switches the proxy off, no request reaches a handler of /v1,
-- with whatever key; one that is for a route of /v1 and within the other limits is answered 404 with the
-- code proxy_disabled.
pub reload-disabled :
    {Bucket : Type 0} (allow : Bucket → ℕ → Bucket × Bool) (fresh : Bucket)
    (find : List Route → String → String → Found) (ui : List Route)
    (parse_url : String → Option Url) (cfg : Config) (a : App) (auth : Auth) (origins : List String)
    (r : Request) (now : ℕ) (rl : RateLimiter Bucket) (b : Route)
    → cfg.proxy ≡ false
    → b.group ≡ v1
    → let g : Gates = record {
      auth = auth;
      allowed_origins = origins;
      proxy_enabled = (reload_config parse_url (some cfg) a).0.proxy_enabled;
    } in
      let outcome = (serve allow fresh find ui g r now rl).1 in
      (outcome ≢ reached b)
      × ((o : Option String)
          → cors origins r.origin r.method ≡ passes o
          → find (router_routes ++ ui) r.method r.path ≡ matched b
          → (limit allow fresh r.remote_addr now rl).1 ≡ true
          → refuses_length r.path r.content_length ≡ false
          → (outcome ≡ proxy_error disabled)
            × (disabled.status ≡ 404)
            × (disabled.code ≡ "proxy_disabled"))
unfolding reload_config disabled
reload-disabled allow fresh find ui parse_url cfg a auth origins r now rl b off q =
    let g : Gates = record { auth = auth; allowed_origins = origins; proxy_enabled = cfg.proxy } in
    (
      λ e.
          let h = ((serve-reached allow fresh g r now rl find ui b).0 e).4 in
          let admits : GroupAdmits g r v1 = subst (GroupAdmits g r) q h in ground (arith, admits.0),
      λ o passed found ok small.
          let gate = off_group_gate g r b.group (reached b) off q in
          (
            within_limits allow fresh find ui g r now rl b o passed found ok small ∙ gate,
            refl,
            refl,
          ),
    )
