-- ===== src/Server/Gates.antt =====
-- server/server.go: which requests reach a handler.
use llm_server_manager.Base.{
  ◌≡◌, ◌≢◌, refl, sym, ap, subst, ◌↔◌, inl, inr, Bool, true, false, String, Option, List, ◌++◌, ℕ,
  arith, Bool-cases,
}
use llm_server_manager.Handlers.Access.{
  Verdict, allowed, missing_key, wrong_key, require_api_key, require_auth, Cors, forbidden,
  preflight, passes, cors,
}
use llm_server_manager.Proxy.Replies.{disabled, invalid_key}
use llm_server_manager.Server.Limits.{RateLimiter, refuses_length}
use llm_server_manager.Server.Routes.{Group, api, v1, top, Route, router_routes}
use llm_server_manager.Server.Chain.{
  Request, Found, matched, unknown_v1, no_route, wrong_method, Outcome, rate_limited,
  entity_too_large, unauthorized, proxy_error, reached, Gates, key_gate, group_gate, body_gate,
  limit, route_request, behind_cors, serve,
}

-- What the group of a route asks for.
abbrev pub GroupAdmits : Gates → Request → Group → Type 0
GroupAdmits g r api = require_api_key g.auth r.api_key ≡ allowed
GroupAdmits g r v1 =
    (g.proxy_enabled ≡ true) × (require_auth g.auth r.api_key r.authorization ≡ allowed)
GroupAdmits g r top = Unit

reached_inj : (a b : Route) → reached a ≡ reached b → a ≡ b
reached_inj a b e = cc

key_gate-reached :
    (refusal : Outcome) (v : Verdict) (a b : Route)
    → ((c : Route) → refusal ≢ reached c)
    → key_gate refusal v (reached a) ≡ reached b
    → (v ≡ allowed) × (a ≡ b)
key_gate-reached refusal allowed a b n e = (refl, cc)
key_gate-reached refusal missing_key a b n e = absurd (n b e)
key_gate-reached refusal wrong_key a b n e = absurd (n b e)

group_gate-reached :
    (g : Gates) (r : Request) (group : Group) (a b : Route)
    → group_gate g r group (reached a) ≡ reached b
    → GroupAdmits g r group × (a ≡ b)
unfolding group_gate
group_gate-reached g r api a b e =
    key_gate-reached unauthorized (require_api_key g.auth r.api_key) a b (λ c q. cc) e
group_gate-reached g r v1 a b e = elim (Bool-cases g.proxy_enabled) [
  | inl on ↦
      let (v, same) =
        key_gate-reached (proxy_error invalid_key) (require_auth g.auth r.api_key r.authorization) a
          b (λ c q. cc) (ground arith) in
      ((on, v), same)
  | inr off ↦ let z : proxy_error disabled ≡ reached b = ground arith in cc
]
group_gate-reached g r top a b e = (tt, cc)

admitted-reached :
    (g : Gates) (r : Request) (group : Group) (a : Route)
    → GroupAdmits g r group
    → group_gate g r group (reached a) ≡ reached a
unfolding group_gate
admitted-reached g r api a h = ground arith
admitted-reached g r v1 a h = ground arith
admitted-reached g r top a h = refl

body_gate-reached :
    (g : Gates) (r : Request) (a b : Route)
    → (body_gate g r a ≡ reached b)
      ↔ ((refuses_length r.path r.content_length ≡ false) × GroupAdmits g r a.group × (a ≡ b))
unfolding body_gate
body_gate-reached g r a b = elim (Bool-cases (refuses_length r.path r.content_length)) [
  | inl large ↦ (λ e. let z : entity_too_large ≡ reached b = ground arith in cc, λ h. ground arith)
  | inr small ↦ (
    λ e. let (h, same) = group_gate-reached g r a.group a b (ground arith) in (small, h, same),
    λ h. ground (arith, admitted-reached g r a.group a h.1),
  )
]

behind_cors-reached {ℓ} :
    {Bucket : Type 0} {P : Type ℓ} (c : Cors) (rl : RateLimiter Bucket)
    (next : RateLimiter Bucket × Outcome) (b : Route)
    → (next.1 ≡ reached b) ↔ P
    → ((behind_cors c rl next).1 ≡ reached b) ↔ (((o : Option String) × (c ≡ passes o)) × P)
unfolding behind_cors
behind_cors-reached forbidden rl next b h = (λ e. cc, λ k. let q = k.0.1 in cc)
behind_cors-reached (preflight o) rl next b h = (λ e. cc, λ k. let q = k.0.1 in cc)
behind_cors-reached (passes o) rl next b h = (λ e. ((o, refl), h.0 e), λ k. h.1 k.1)

module _ {Bucket : Type 0} (allow : Bucket → ℕ → Bucket × Bool) (fresh : Bucket) (g : Gates)
    (r : Request) (now : ℕ) (rl : RateLimiter Bucket) where
  route_request-reached :
      (found : Found) (b : Route)
      → ((route_request allow fresh g r now found rl).1 ≡ reached b) ↔ (
          (found ≡ matched b)
          × ((limit allow fresh r.remote_addr now rl).1 ≡ true)
          × (refuses_length r.path r.content_length ≡ false)
          × GroupAdmits g r b.group)
  unfolding route_request
  route_request-reached (matched a) b =
      let inner = body_gate-reached g r a b in
      elim (Bool-cases (limit allow fresh r.remote_addr now rl).1) [
        | inl ok ↦ (
          λ e.
              let (small, h, same) = inner.0 (ground arith) in
              (ap matched same, ok, small, subst (λ c. GroupAdmits g r c.group) same h),
          λ h.
              let same : a ≡ b = cc in
              let k =
                inner.1
                  (h.2, subst (λ (c : Route). GroupAdmits g r c.group) (sym same) h.3, same) in
              ground arith,
        )
        | inr empty ↦
            (λ e. let z : rate_limited ≡ reached b = ground arith in cc, λ h. ground arith)
      ]
  route_request-reached unknown_v1 b = (λ e. cc, λ h. cc)
  route_request-reached no_route b = (λ e. cc, λ h. cc)
  route_request-reached wrong_method b = (λ e. cc, λ h. cc)

  -- A request reaches the handler of a route exactly if CORS passes it on, mux finds that route among
  -- those registered, its address has a token left, its declared length is within the limit of its path,
  -- and the gates of the route's group admit it: the key for /api/v1, and for /v1 the key and a proxy
  -- that is switched on.
  pub serve-reached :
      (find : List Route → String → String → Found) (ui : List Route) (b : Route)
      → ((serve allow fresh find ui g r now rl).1 ≡ reached b) ↔ (
          ((o : Option String) × (cors g.allowed_origins r.origin r.method ≡ passes o))
          × (find (router_routes ++ ui) r.method r.path ≡ matched b)
          × ((limit allow fresh r.remote_addr now rl).1 ≡ true)
          × (refuses_length r.path r.content_length ≡ false)
          × GroupAdmits g r b.group)
  unfolding serve
  serve-reached find ui b =
      let (there, back) =
        behind_cors-reached (cors g.allowed_origins r.origin r.method) rl
          (route_request allow fresh g r now (find (router_routes ++ ui) r.method r.path) rl) b
          (route_request-reached (find (router_routes ++ ui) r.method r.path) b) in
      (λ e. let (c, p) = there e in (c, p.0, p.1, p.2, p.3), λ k. back (k.0, (k.1, k.2, k.3, k.4)))
