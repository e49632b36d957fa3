-- ===== src/Proxy/Forward.antt =====
-- proxy/handler.go: HandleGeneration and forward.
use llm_server_manager.Base.{String, ◌==◌, Option, none, some, List, [], ◌∷◌, ℕ, if◌then◌else◌}
use llm_server_manager.Proxy.Table.{Target}
use llm_server_manager.Proxy.Router.{Router, View, resolve, invalidate}

-- How the round trip to a target ends: with a response, with the connection refused or reset, or with
-- another failure.
pub data Upstream : Type 0 where
  answered went_away broke : Upstream

-- The answer to the client.
pub data Answer : Type 0 where
  bad_request not_available stopped_running bad_gateway : Answer
  warming_up passed_through : Target → Answer

-- What the world shows to the second attempt.
pub record Retry : Type 0 where
  pub now : ℕ
  pub view : View
  pub later : ℕ

-- The second attempt: whatever fails is reported.
unfoldable pub second_attempt : (Target → Upstream) → Target → Answer
second_attempt upstream t = elim (upstream t) [
  | answered ↦ passed_through t
  | went_away ↦ bad_gateway
  | broke ↦ bad_gateway
]

-- The resolution before it, and the targets contacted.
unfoldable pub retry :
    (Target → Upstream) → Router × Option (List Target) → Router × Answer × List Target
unfolding second_attempt
retry upstream (r, none) = (r, stopped_running, [])
retry upstream (r, some []) = (r, stopped_running, [])
retry upstream (r, some (t ∷ ts)) = (r, second_attempt upstream t, t ∷ [])

-- forward: the answer and the targets that were contacted, in order. The body is buffered, so it can
-- be sent twice.
unfoldable pub forward :
    (Target → Upstream)
    → (Target → Upstream)
    → Router
    → String
    → Target
    → Retry
    → Router × Answer × List Target
unfolding retry
forward first second r name t again = elim (first t) [
  | answered ↦ (r, passed_through t, t ∷ [])
  | broke ↦ (r, bad_gateway, t ∷ [])
  | went_away ↦
      let (r', answer, contacted) =
        retry second (resolve (invalidate r name) name again.now again.view again.later) in
      (r', answer, t ∷ contacted)
]

-- The request's body, as far as it is read.
pub data Body : Type 0 where
  unreadable not_json : Body
  model : String → Body

-- The first target of a resolved name: it is contacted unless it is still warming up.
unfoldable pub dispatch :
    (Target → Upstream)
    → (Target → Upstream)
    → Router
    → String
    → Option (List Target)
    → Retry
    → Router × Answer × List Target
unfolding forward
dispatch first second r name none again = (r, not_available, [])
dispatch first second r name (some []) again = (r, not_available, [])
dispatch first second r name (some (t ∷ ts)) again =
    if t.warming then (r, warming_up t, []) else forward first second r name t again

-- HandleGeneration.
unfoldable pub handle_generation :
    (Target → Upstream)
    → (Target → Upstream)
    → Router
    → Body
    → Retry
    → Retry
    → Router × Answer × List Target
unfolding dispatch
handle_generation first second r unreadable at again = (r, bad_request, [])
handle_generation first second r not_json at again = (r, bad_request, [])
handle_generation first second r (model name) at again =
    if name == ""
    then (r, bad_request, [])
    else (let (r', found) = resolve r name at.now at.view at.later in
        dispatch first second r' name found again)
