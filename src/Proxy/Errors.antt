-- ===== src/Proxy/Errors.antt =====
-- proxy/handler.go: what the status of an answer to a generation request says.
use llm_server_manager.Base.{
  ◌≡◌, refl, ◌≢◌, ◌⊎◌, inl, inr, String, ◌==◌, true, none, some, List, [], ◌∷◌, arith, Option,
  if_cases, subst,
}
use llm_server_manager.Proxy.Table.{Target}
use llm_server_manager.Proxy.Router.{Router, resolve, invalidate}
use llm_server_manager.Proxy.Forward.{
  Upstream, answered, went_away, broke, Answer, bad_request, not_available, stopped_running,
  bad_gateway, warming_up, passed_through, Retry, second_attempt, retry, forward, Body, unreadable,
  not_json, model, dispatch, handle_generation,
}
use llm_server_manager.Proxy.Replies.{reply_of, Reply, relayed, failed}

Upstream-cases : (u : Upstream) → (u ≡ answered) ⊎ (u ≡ went_away) ⊎ (u ≡ broke)
Upstream-cases answered = inl refl
Upstream-cases went_away = inr (inl refl)
Upstream-cases broke = inr (inr refl)

module _ (first second : Target → Upstream) where
  -- Whom a request reached before it got the answer, and how that ended.
  abbrev Explained : Answer → List Target → Type 0
  Explained bad_request contacted = contacted ≡ []
  Explained not_available contacted = contacted ≡ []
  Explained stopped_running contacted = (t : Target) × (contacted ≡ t ∷ []) × (first t ≡ went_away)
  Explained bad_gateway contacted =
      ((t : Target) × (contacted ≡ t ∷ []) × (first t ≡ broke))
      ⊎ ((t : Target) × (u : Target) × (contacted ≡ t ∷ u ∷ [])
          × (first t ≡ went_away)
          × (second u ≢ answered))
  Explained (warming_up t) contacted = (contacted ≡ []) × (t.warming ≡ true)
  Explained (passed_through u) contacted =
      ((contacted ≡ u ∷ []) × (first u ≡ answered))
      ⊎ ((t : Target) × (contacted ≡ t ∷ u ∷ []) × (first t ≡ went_away) × (second u ≡ answered))

  abbrev Result : Router × Answer × List Target → Type 0
  Result (r, answer, contacted) = Explained answer contacted

  second_attempt-Explained :
      (t u : Target) → first t ≡ went_away → Explained (second_attempt second u) (t ∷ u ∷ [])
  unfolding second_attempt
  second_attempt-Explained t u gone = elim (Upstream-cases (second u)) [
    | inl e ↦ rw (e, Explained) (inr (t, refl, gone, e))
    | inr (inl e) ↦ rw (e, Explained) (inr (t, u, refl, gone, λ q. cc))
    | inr (inr e) ↦ rw (e, Explained) (inr (t, u, refl, gone, λ q. cc))
  ]

  retry-Explained :
      (t : Target) (found : Router × Option (List Target))
      → first t ≡ went_away
      → Explained (retry second found).1 (t ∷ (retry second found).2)
  unfolding retry
  retry-Explained t (r, none) gone = (t, refl, gone)
  retry-Explained t (r, some []) gone = (t, refl, gone)
  retry-Explained t (r, some (u ∷ us)) gone = second_attempt-Explained t u gone

  forward-Explained :
      (r : Router) (name : String) (t : Target) (again : Retry)
      → let (r', answer, contacted) = forward first second r name t again in
        Explained answer contacted
  unfolding forward
  forward-Explained r name t again = elim (Upstream-cases (first t)) [
    | inl e ↦ shown (r, passed_through t, t ∷ []) (ground arith) (inl (refl, e))
    | inr (inl e) ↦
        let (r', found) = resolve (invalidate r name) name again.now again.view again.later in
        let (r'', answer, contacted) = retry second (r', found) in
        shown (r'', answer, t ∷ contacted) (ground arith) (retry-Explained t (r', found) e)
    | inr (inr e) ↦ shown (r, bad_gateway, t ∷ []) (ground arith) (inl (t, refl, e))
  ]
    where
      shown :
          (result : Router × Answer × List Target)
          → result ≡ forward first second r name t again
          → Result result
          → Result (forward first second r name t again)
      shown result e h = subst Result e h

  dispatch-Explained :
      (r : Router) (name : String) (found : Option (List Target)) (again : Retry)
      → let (r', answer, contacted) = dispatch first second r name found again in
        Explained answer contacted
  unfolding dispatch
  dispatch-Explained r name none again = refl
  dispatch-Explained r name (some []) again = refl
  dispatch-Explained r name (some (t ∷ ts)) again =
      if_cases Result t.warming (λ w. (refl, w)) (λ _. forward-Explained r name t again)

  handle_generation-Explained :
      (r : Router) (b : Body) (at again : Retry)
      → let (r', answer, contacted) = handle_generation first second r b at again in
        Explained answer contacted
  unfolding handle_generation
  handle_generation-Explained r unreadable at again = refl
  handle_generation-Explained r not_json at again = refl
  handle_generation-Explained r (model name) at again =
      if_cases Result (name == "") (λ _. refl)
        (λ _.
          let (r', found) = resolve r name at.now at.view at.later in
          dispatch-Explained r' name found again)

  -- What the status of a reply says of the targets contacted.
  abbrev pub Means : Reply → List Target → Type 0
  Means (relayed u) contacted =
      ((contacted ≡ u ∷ []) × (first u ≡ answered))
      ⊎ ((t : Target) × (contacted ≡ t ∷ u ∷ []) × (first t ≡ went_away) × (second u ≡ answered))
  Means (failed e) contacted =
      ((e.status ≡ 400) × (contacted ≡ []))
      ⊎ ((e.status ≡ 404)
          × (e.code ≡ "model_not_available")
          × ((contacted ≡ []) ⊎ ((t : Target) × (contacted ≡ t ∷ []) × (first t ≡ went_away))))
      ⊎ ((e.status ≡ 503) × (e.retry_after ≡ some 5) × (contacted ≡ []))
      ⊎ ((e.status ≡ 502)
          × (((t : Target) × (contacted ≡ t ∷ []) × (first t ≡ broke))
              ⊎ ((t : Target) × (u : Target) × (contacted ≡ t ∷ u ∷ [])
                  × (first t ≡ went_away)
                  × (second u ≢ answered))))

  Explained-Means :
      (a : Answer) (contacted : List Target) → Explained a contacted → Means (reply_of a) contacted
  unfolding reply_of
  Explained-Means bad_request cs h = inl (refl, h)
  Explained-Means not_available cs h = inr (inl (refl, refl, inl h))
  Explained-Means stopped_running cs h = inr (inl (refl, refl, inr h))
  Explained-Means bad_gateway cs h = inr (inr (inr (refl, h)))
  Explained-Means (warming_up t) cs h = inr (inr (inl (refl, refl, h.0)))
  Explained-Means (passed_through u) cs h = h

  -- Whatever the request and the targets do: a response is relayed only from a target that answered,
  -- at once or after the first one went away. Otherwise the status is 400 with nobody contacted; 404,
  -- with nobody contacted or after the one target went away; 503 with Retry-After 5 and nobody
  -- contacted; or 502, after a target failed otherwise or a second one did not answer.
  pub handle_generation-Means :
      (r : Router) (b : Body) (at again : Retry)
      → let (r', answer, contacted) = handle_generation first second r b at again in
        Means (reply_of answer) contacted
  handle_generation-Means r b at again =
      let (r', answer, contacted) = handle_generation first second r b at again in
      Explained-Means answer contacted (handle_generation-Explained r b at again)
