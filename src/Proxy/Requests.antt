-- ===== src/Proxy/Requests.antt =====
-- proxy/proxy.go and proxy/handler.go: what a generation request is answered from, and whom it reaches.
use llm_server_manager.Base.{
  ◌≡◌, refl, ◌∙◌, ◌≢◌, ◌⊎◌, inl, String, eq_iff, true, false, none, some, List, [], ◌∷◌, ℕ, ◌-◌,
  ◌<◌, ◌≤◌, lookup, length, arith,
}
use llm_server_manager.Proxy.Table.{Target}
use llm_server_manager.Proxy.Router.{
  Router, View, is_fresh, lookup_route, rebuild, resolve, invalidate,
}
use llm_server_manager.Proxy.Routes.{routes, add_routes, build-routes}
use llm_server_manager.Proxy.Forward.{
  Upstream, answered, went_away, broke, not_available, stopped_running, bad_gateway, warming_up,
  passed_through, Retry, forward, Body, unreadable, not_json, model, handle_generation,
}

rebuild-lookup :
    (r : Router) (v : View) (name : String)
    → lookup name (rebuild r v).table ≡ add_routes none (routes name v.sources)
unfolding rebuild
rebuild-lookup r v name = build-routes name v.sources

rebuilt_is_fresh :
    (r : Router) (v : View) (later : ℕ)
    → later - v.done < r.ttl
    → is_fresh (rebuild r v) later ≡ true
unfolding is_fresh rebuild
rebuilt_is_fresh r v later young = ground arith

fresh_lookup :
    (r : Router) (name : String) (now : ℕ)
    → is_fresh r now ≡ true
    → lookup_route r name now ≡ lookup name r.table
unfolding lookup_route
fresh_lookup r name now fresh = ground arith

rebuild-lookup_route :
    (r : Router) (v : View) (name : String) (later : ℕ)
    → later - v.done < r.ttl
    → lookup_route (rebuild r v) name later ≡ add_routes none (routes name v.sources)
rebuild-lookup_route r v name later young =
    fresh_lookup (rebuild r v) name later (rebuilt_is_fresh r v later young)
    ∙ rebuild-lookup r v name

-- resolve answers from the table as it is while that is fresh and has the name. Otherwise it rebuilds,
-- and as long as the rebuilt table is fresh the answer is the list of running models that have the
-- name, in order, or nothing if there are none.
pub resolve_lem :
    (r : Router) (name : String) (now : ℕ) (v : View) (later : ℕ)
    → ((ts : List Target)
        → is_fresh r now ≡ true
        → lookup name r.table ≡ some ts
        → resolve r name now v later ≡ (r, some ts))
      × ((is_fresh r now ≡ false) ⊎ (lookup name r.table ≡ none)
          → later - v.done < r.ttl
          → resolve r name now v later ≡ (rebuild r v, add_routes none (routes name v.sources)))
unfolding resolve lookup_route
resolve_lem r name now v later = (
  λ ts fresh found. ground arith,
  λ stale young. let answer = rebuild-lookup_route r v name later young in ground (arith, answer),
)

-- The name that the stale target was found under is resolved anew: the router forgets it, and with it
-- that the table was fresh.
invalidate_stale : (r : Router) (name : String) (now : ℕ) → is_fresh (invalidate r name) now ≡ false
unfolding is_fresh invalidate
invalidate_stale r name now = refl

-- Where the table is still fresh when it is looked at after its rebuild: a request is sent to a second
-- target only after the first went away without a response. Then the second is the first target for
-- the name among the models that ran when the rebuild which the retry runs, or joins, looked at the
-- machines, which for one that is joined may be before the first target failed; without one the
-- answer says that the model stopped.
pub forward_lem :
    (first second : Target → Upstream) (r : Router) (name : String) (t : Target) (again : Retry)
    → again.later - again.view.done < r.ttl
    → (first t ≡ answered → forward first second r name t again ≡ (r, passed_through t, t ∷ []))
      × (first t ≡ broke → forward first second r name t again ≡ (r, bad_gateway, t ∷ []))
      × (first t ≡ went_away
          → let found = routes name again.view.sources in
            let (r', answer, contacted) = forward first second r name t again in
            (r' ≡ rebuild (invalidate r name) again.view)
            × (found ≡ [] → (answer ≡ stopped_running) × (contacted ≡ t ∷ []))
            × ((u : Target) (us : List Target)
                → found ≡ u ∷ us
                → (contacted ≡ t ∷ u ∷ [])
                  × (second u ≡ answered → answer ≡ passed_through u)
                  × (second u ≢ answered → answer ≡ bad_gateway)))
unfolding forward
forward_lem first second r name t again young =
    let found =
      (resolve_lem (invalidate r name) name again.now again.view again.later).1
        (inl (invalidate_stale r name again.now)) (unfold invalidate in young) in
    (
      λ e. ground arith,
      λ e. ground arith,
      λ e. (
        ground (arith, found),
        λ gone. (ground (arith, found), ground (arith, found)),
        λ u us q. (ground (arith, found), λ a. ground (arith, found), λ n. ground (arith, found)),
      ),
    )

-- Every answer of HandleGeneration: a request with no model is refused and reaches nobody; a name with
-- no target is not available; a first target that is warming up is not contacted; and otherwise the
-- request is forwarded to the first target.
pub handle_generation_lem :
    (first second : Target → Upstream) (r : Router) (name : String) (at again : Retry)
    → name ≢ ""
    → let (r', found) = resolve r name at.now at.view at.later in
      let result = handle_generation first second r (model name) at again in
      ((found ≡ none) ⊎ (found ≡ some []) → result ≡ (r', not_available, []))
      × ((t : Target) (ts : List Target)
          → found ≡ some (t ∷ ts)
          → (t.warming ≡ true → result ≡ (r', warming_up t, []))
            × (t.warming ≡ false → result ≡ forward first second r' name t again))
unfolding handle_generation
handle_generation_lem first second r name at again named = (
  λ none_found. ground (arith, eq_iff name ""),
  λ t ts q. (λ warm. ground (arith, eq_iff name ""), λ cold. ground (arith, eq_iff name "")),
)

-- No request is sent more than twice.
pub length-contacted :
    (first second : Target → Upstream) (r : Router) (b : Body) (at again : Retry)
    → length (handle_generation first second r b at again).2 ≤ 2
unfolding handle_generation forward
length-contacted first second r unreadable at again = omega arith
length-contacted first second r not_json at again = omega arith
length-contacted first second r (model name) at again = ground arith
