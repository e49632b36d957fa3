-- ===== src/Proxy/Transport.antt =====
-- proxy/handler.go: makeProxy, staleDetectTransport and isStaleError. The transport's round trip, the
-- director of net/http/httputil for one host, url.Parse and the canonical form of a header's name
-- (net/textproto) are parameters.
use llm_server_manager.Base.{
  ◌≡◌, ◌≢◌, refl, String, eq_iff, Bool, true, false, ◌&&◌, not, Option, none, some, List, [], ◌∷◌,
  if◌then◌else◌, lookup, erase, lookup-erase, arith, keep,
}
use llm_server_manager.Proxy.Table.{Target}
use llm_server_manager.Proxy.Router.{Router, resolve, invalidate}
use llm_server_manager.Proxy.Forward.{
  Upstream, answered, went_away, broke, Retry, retry, forward, second_attempt,
}
use llm_server_manager.Proxy.Replies.{ApiError, write_error, Reply, relayed, failed, reply_of}

-- An outgoing request: its host, and its headers under their canonical names.
pub record Request : Type 0 where
  pub host : String
  pub headers : List (String × List String)

-- Header.Del.
unfoldable pub delete_header : (String → String) → String → Request → Request
delete_header canonical name r = record r { headers = erase (canonical name) r.headers }

-- The director of makeProxy. `authority` is the host that url.Parse finds in the target's base URL.
unfoldable pub direct : (String → String) → (Request → Request) → String → Request → Request
unfolding delete_header
direct canonical original_director authority r =
    let directed = original_director r in
    delete_header canonical "api-key"
      (delete_header canonical "Authorization" (record directed { host = authority }))

-- An error of the transport, as far as errors.Is tells it apart.
pub data TransportError : Type 0 where
  connection_refused connection_reset other_error : TransportError

unfoldable pub is_stale_error : TransportError → Bool
is_stale_error connection_refused = true
is_stale_error connection_reset = true
is_stale_error other_error = false

-- RoundTrip of staleDetectTransport: the flag afterwards.
unfoldable pub round_trip : Bool → Option TransportError → Bool
unfolding is_stale_error
round_trip stale none = stale
round_trip stale (some e) = if is_stale_error e then true else stale

-- One attempt, as rp.ServeHTTP runs it: what is written to the client and whether the target was
-- stale.
pub data Written : Type 0 where
  response nothing : Written
  own_error : ApiError → Written

-- The ErrorHandler of makeProxy.
unfoldable pub handle_error : Bool → Bool → Written
handle_error stale retry_possible =
    if stale && retry_possible
    then nothing
    else own_error (write_error 502 "server_error" "api_error")

unfoldable pub attempt : Bool → Option TransportError → Written × Bool
unfolding round_trip handle_error
attempt retry_possible none = (response, round_trip false none)
attempt retry_possible (some e) =
    let stale = round_trip false (some e) in (handle_error stale retry_possible, stale)

-- The second round of forward's loop: what it writes.
unfoldable pub second_round :
    (Target → Option TransportError) → Router × Option (List Target) → Router × List Written
unfolding attempt
second_round failure (r, none) =
    (r, own_error (write_error 404 "invalid_request_error" "model_not_available") ∷ [])
second_round failure (r, some []) =
    (r, own_error (write_error 404 "invalid_request_error" "model_not_available") ∷ [])
second_round failure (r, some (t ∷ ts)) = (r, (attempt false (failure t)).0 ∷ [])

-- forward: what both rounds write.
unfoldable pub forward_loop :
    (Target → Option TransportError)
    → (Target → Option TransportError)
    → Router
    → String
    → Target
    → Retry
    → Router × List Written
unfolding attempt second_round
forward_loop first second r name t again =
    let (written, stale) = attempt true (first t) in
    let (r', more) =
      second_round second (resolve (invalidate r name) name again.now again.view again.later) in
    if not stale then (r, written ∷ []) else (r', written ∷ more)

-- How forward's callers see the end of a round trip.
abbrev pub upstream_of : Option TransportError → Upstream
upstream_of none = answered
upstream_of (some connection_refused) = went_away
upstream_of (some connection_reset) = went_away
upstream_of (some other_error) = broke

abbrev pub written_of : Reply → Written
written_of (relayed t) = response
written_of (failed e) = own_error e

abbrev pub is_written : Written → Bool
is_written nothing = false
is_written _ = true

second_round-retry :
    (failure : Target → Option TransportError) (found : Router × Option (List Target))
    → let (r, writes) = second_round failure found in
      let (r', answer, contacted) = retry (λ u. upstream_of (failure u)) found in
      (r ≡ r') × (keep is_written writes ≡ written_of (reply_of answer) ∷ [])
unfolding second_round retry second_attempt reply_of attempt handle_error round_trip is_stale_error
second_round-retry failure (r, none) = (refl, refl)
second_round-retry failure (r, some []) = (refl, refl)
second_round-retry failure (r, some (t ∷ ts)) = (refl, ground arith)

-- Whatever errors the transport meets, the two rounds of forward write to the client exactly once,
-- and they write what forward answers.
pub forward_loop-forward :
    (first second : Target → Option TransportError) (r : Router) (name : String) (t : Target)
    (again : Retry)
    → let (r1, writes) = forward_loop first second r name t again in
      let (r2, answer, contacted) =
        forward (λ u. upstream_of (first u)) (λ u. upstream_of (second u)) r name t again in
      (r1 ≡ r2) × (keep is_written writes ≡ written_of (reply_of answer) ∷ [])
unfolding forward_loop forward reply_of attempt handle_error round_trip is_stale_error
forward_loop-forward first second r name t again =
    let found = resolve (invalidate r name) name again.now again.view again.later in
    ground (arith, second_round-retry second found)

-- Whatever net/http/httputil's own director does, the request that makeProxy's director hands back to the
-- reverse proxy has the target's host and neither an Authorization nor an api-key header; every other
-- header is as the own director leaves it. What the reverse proxy itself changes after that, as the
-- hop-by-hop headers and X-Forwarded-For, is not part of it.
pub direct_lem :
    (canonical : String → String) (original_director : Request → Request) (authority : String)
    (r : Request)
    → let out = direct canonical original_director authority r in
      (out.host ≡ authority)
      × (lookup (canonical "Authorization") out.headers ≡ none)
      × (lookup (canonical "api-key") out.headers ≡ none)
      × ((name : String)
          → name ≢ canonical "Authorization"
          → name ≢ canonical "api-key"
          → lookup name out.headers ≡ lookup name (original_director r).headers)
unfolding direct delete_header
direct_lem canonical original_director authority r =
    let hs = (original_director r).headers in
    let auth = canonical "Authorization" in
    let key = canonical "api-key" in
    let second = λ (n : String). lookup-erase key n (erase auth hs) in
    let first = λ (n : String). lookup-erase auth n hs in
    (
      refl,
      ground (arith, second auth, first auth, eq_iff key auth, eq_iff auth auth),
      ground (arith, second key, eq_iff key key),
      λ n a k. ground (arith, second n, first n, eq_iff key n, eq_iff auth n),
    )
