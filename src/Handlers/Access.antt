-- ===== src/Handlers/Access.antt =====
-- handlers/handlers.go: the API key of New, RequireAPIKey and CORS. proxy/handler.go: RequireAuth.
-- A header that is not there reads as the empty text.
use llm_server_manager.Base.{
  Bool, true, not, ◌&&◌, ◌||◌, String, ◌==◌, Option, none, some, List, [], ◌∷◌, ℕ, leb, eqb,
  if◌then◌else◌, codes, is_digit, length, any, trim_space, strip_prefix?,
}

abbrev pub is_alphanumeric : ℕ → Bool
is_alphanumeric c = is_digit c || leb b'a' c && leb c b'z' || leb b'A' c && leb c b'Z'

abbrev all_chars : (ℕ → Bool) → List ℕ → Bool
all_chars p [] = true
all_chars p (c ∷ s) = p c && all_chars p s

-- validAPIKeyPattern: exactly 16 alphanumeric characters.
unfoldable pub is_valid_api_key : List ℕ → Bool
is_valid_api_key s = eqb (length s) 16 && all_chars is_alphanumeric s

pub record Auth : Type 0 where
  pub api_key : String
  pub enabled : Bool

-- The part of New that reads LLM_MANAGER_API_KEY.
unfoldable pub new_auth : String → Auth
unfolding is_valid_api_key
new_auth env = record { api_key = env; enabled = not (env == "") && is_valid_api_key (codes env) }

pub data Verdict : Type 0 where
  allowed missing_key wrong_key : Verdict

-- A key that was given, against the key that is configured.
abbrev compare_key : Auth → String → Verdict
compare_key a key =
    if key == "" then missing_key else if key == a.api_key then allowed else wrong_key

-- RequireAPIKey.
unfoldable pub require_api_key : Auth → String → Verdict
require_api_key a header = if not a.enabled then allowed else compare_key a header

-- The key behind "Bearer ".
unfoldable pub bearer_key : String → String
bearer_key authorization = elim (strip_prefix? "Bearer " authorization) [
  | none ↦ ""
  | some rest ↦ trim_space rest
]

-- RequireAuth of the proxy.
unfoldable pub require_auth : Auth → String → String → Verdict
unfolding bearer_key
require_auth a header authorization =
    if not a.enabled
    then allowed
    else compare_key a (if header == "" then bearer_key authorization else header)

-- What CORS answers, and the origin that it allows.
pub data Cors : Type 0 where
  forbidden : Cors
  preflight passes : Option String → Cors

-- CORS. An empty list of origins allows all.
unfoldable pub cors : List String → String → String → Cors
cors allowed_origins origin method =
    let allow = if origin == "" then none else some origin in
    if not (origin == "")
      && not (eqb (length allowed_origins) 0)
      && not (any (λ o. o == origin) allowed_origins)
    then forbidden
    else if method == "OPTIONS"
    then preflight allow
    else passes allow
