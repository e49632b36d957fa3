-- ===== src/Handlers/Admission.antt =====
-- handlers/handlers.go and proxy/handler.go: which requests the key checks and CORS admit.
use llm_server_manager.Base.{
  ◌≡◌, ◌≢◌, ◌↔◌, ◌⊎◌, inl, inr, true, false, String, ◌==◌, eq_iff, Option, none, some, List, codes,
  trim_space, strip_prefix?, arith, Option-cases, any, length, ◌<◌,
}
use llm_server_manager.Handlers.Access.{
  is_valid_api_key, new_auth, allowed, require_api_key, bearer_key, require_auth, forbidden,
  preflight, passes, cors,
}

-- With a well-formed key in the environment the control API admits exactly the requests whose api-key
-- header is that key. With no key, or with a malformed one, it admits every request.
pub require_api_key_lem :
    (env header : String)
    → ((env ≡ "") ⊎ (is_valid_api_key (codes env) ≡ false)
        → require_api_key (new_auth env) header ≡ allowed)
      × (env ≢ ""
          → is_valid_api_key (codes env) ≡ true
          → (require_api_key (new_auth env) header ≡ allowed) ↔ (header ≡ env))
unfolding require_api_key new_auth
require_api_key_lem env header = (
  λ off. ground (arith, eq_iff env ""),
  λ n v. (
    λ e. ground (arith, eq_iff env "", eq_iff header "", eq_iff header env),
    λ e. ground (arith, eq_iff env "", eq_iff header "", eq_iff header env),
  ),
)

bearer_key-some :
    (authorization env : String)
    → env ≢ ""
    → (bearer_key authorization ≡ env) ↔ (
        (rest : String) × (strip_prefix? "Bearer " authorization ≡ some rest)
        × (trim_space rest ≡ env))
unfolding bearer_key
bearer_key-some authorization env n = elim (Option-cases (strip_prefix? "Bearer " authorization)) [
  | inl q ↦ (λ e. absurd (n (ground arith)), λ h. ground arith)
  | inr (rest, q) ↦ (λ e. (rest, q, ground arith), λ h. ground arith)
]

-- With a well-formed key the proxy decides as the control API does wherever there is an api-key header;
-- without one it admits exactly the requests whose Authorization header holds the key behind Bearer.
pub require_auth_lem :
    (env header authorization : String)
    → env ≢ ""
    → is_valid_api_key (codes env) ≡ true
    → (header ≢ ""
        → require_auth (new_auth env) header authorization ≡ require_api_key (new_auth env) header)
      × ((require_auth (new_auth env) "" authorization ≡ allowed) ↔ (
          (rest : String) × (strip_prefix? "Bearer " authorization ≡ some rest)
          × (trim_space rest ≡ env)))
unfolding require_auth require_api_key new_auth
require_auth_lem env header authorization n v = (
  λ h. ground (arith, eq_iff header ""),
  (
    λ e. (bearer_key-some authorization env n).0 (
        ground (
          arith,
          eq_iff env "",
          eq_iff (bearer_key authorization) "",
          eq_iff (bearer_key authorization) env,
        )),
    λ h.
        let e = (bearer_key-some authorization env n).1 h in
        ground (
          arith,
          eq_iff env "",
          eq_iff (bearer_key authorization) "",
          eq_iff (bearer_key authorization) env,
        ),
  ),
)

-- A request is turned away by CORS exactly if it names an origin, a list of origins is configured and
-- the origin is not in it; and an origin that is let through is the one that is echoed.
pub cors_lem :
    (origins : List String) (origin method : String)
    → ((cors origins origin method ≡ forbidden)
        ↔ ((origin ≢ "") × (0 < length origins) × (any (λ o. o == origin) origins ≡ false)))
      × ((o : Option String)
          → (cors origins origin method ≡ preflight o) ⊎ (cors origins origin method ≡ passes o)
          → ((o ≡ none) × (origin ≡ "")) ⊎ (o ≡ some origin))
unfolding cors
cors_lem origins origin method = (
  (
    λ e. (
      λ q. ground (arith, eq_iff origin ""),
      ground (arith, eq_iff origin ""),
      ground (arith, eq_iff origin ""),
    ),
    λ h. ground (arith, eq_iff origin ""),
  ),
  λ o e. ground (arith, eq_iff origin ""),
)
