-- ===== src/Cli/Key.antt =====
-- tools/cli/commands/root.go: the client and the server agree on the key, and every address has a scheme.
use Prim.Native.String
use text.Mathlib.TextLemmas.{nil-append, cons-append}
use llm_server_manager.Base.{
  ◌≡◌, refl, ◌∙◌, sym, ap, subst, ◌≢◌, ◌⊎◌, inl, inr, eq_iff, eq_refl, String, ◌==◌, true, ◌&&◌,
  not, Option, none, some, if◌then◌else◌, if_cases, codes, strip_prefix?, arith,
}
use llm_server_manager.Handlers.Access.{is_valid_api_key, new_auth, require_api_key, allowed, Auth}
use llm_server_manager.Cli.{has_scheme, with_scheme, get_server_url, key_header}

strip_prefix?-append : (p s : String) → strip_prefix? p (String.◌++◌ p s) ≡ some s
unfolding strip_prefix?
strip_prefix?-append String.[] s = ap some (nil-append s)
strip_prefix?-append (String.◌∷◌ c p) s =
    ground (arith, cons-append c p s, strip_prefix?-append p s)

has_scheme-http : (s : String) → has_scheme (String.◌++◌ "http://" s) ≡ true
unfolding has_scheme
has_scheme-http s = ground (arith, strip_prefix?-append "http://" s)

with_scheme-has : (s : String) → has_scheme (with_scheme s) ≡ true
unfolding with_scheme
with_scheme-has s =
    if_cases (λ t. has_scheme t ≡ true) (has_scheme s) (λ y. y) (λ n. has_scheme-http s)

-- Whatever the flag and the environment say, the address that a request goes to has a scheme.
pub get_server_url-has_scheme :
    (flag : Option String) (env : String) → has_scheme (get_server_url flag env) ≡ true
unfolding get_server_url
get_server_url-has_scheme none env =
    with_scheme-has (if env == "" then "http://localhost:8080" else env)
get_server_url-has_scheme (some s) env = with_scheme-has s

own_key : (server : String) → require_api_key (new_auth server) (key_header server) ≡ allowed
unfolding key_header new_auth require_api_key
own_key server = ground (arith, eq_refl server, eq_iff server "")

sent_or_not : (client : String) → (key_header client ≡ client) ⊎ (key_header client ≡ "")
unfolding key_header
sent_or_not client =
    if_cases (λ t. (t ≡ client) ⊎ (t ≡ "")) (not (client == "") && is_valid_api_key (codes client))
      (λ _. inl refl) (λ _. inr refl)

no_key : (a : Auth) → a.enabled ≡ true → require_api_key a "" ≢ allowed
unfolding require_api_key
no_key a on h = ground arith

same_key :
    (a : Auth) (key : String) → a.enabled ≡ true → require_api_key a key ≡ allowed → key ≡ a.api_key
unfolding require_api_key
same_key a key on h = ground (arith, eq_iff key "", eq_iff key a.api_key)

other_key :
    (server client : String)
    → (new_auth server).enabled ≡ true
    → require_api_key (new_auth server) (key_header client) ≡ allowed
    → client ≡ server
unfolding new_auth
other_key server client on h = elim (sent_or_not client) [
  | inl e ↦ sym e ∙ same_key (new_auth server) (key_header client) on h
  | inr e ↦
      absurd (
        no_key (new_auth server) on
          (subst (λ k. require_api_key (new_auth server) k ≡ allowed) e h))
]

-- A client whose environment holds the server's key is let in by the control API, also where that key
-- is malformed or empty; and where the server checks keys, a client with another key in its environment
-- is turned away.
pub key_header-admitted :
    (server client : String)
    → (require_api_key (new_auth server) (key_header server) ≡ allowed)
      × ((new_auth server).enabled ≡ true
          → require_api_key (new_auth server) (key_header client) ≡ allowed
          → client ≡ server)
key_header-admitted server client = (own_key server, λ on h. other_key server client on h)
