-- ===== src/Handlers/Saves.antt =====
-- handlers/handlers.go: what a saved configuration is known to be, and that no edit is overwritten.
use llm_server_manager.Base.{
  ◌≡◌, refl, ◌≢◌, ◌⊎◌, inl, inr, Bool, true, false, String, ◌==◌, eq_iff, Option, none, some, List,
  [], ◌∷◌, ℕ, ◌+◌, any, All, arith, Option-cases, trim_space,
}
use llm_server_manager.Models.{ModelConfig}
use llm_server_manager.Config.{Config}
use llm_server_manager.Manager.Validate.{validate_config}
use llm_server_manager.Proxy.Published.{Distinct}
use llm_server_manager.Handlers.Etag.{etag_matches}
use llm_server_manager.Handlers.SaveConfig.{
  File, content, Refusal, Saved, refused, saved, reload_pending, check_models, check_if_match,
  save_config,
}

abbrev pub names : List ModelConfig → List String
names [] = []
names (m ∷ ms) = m.name ∷ names ms

check_models_step :
    (i : ℕ) (seen : List String) (m : ModelConfig) (ms : List ModelConfig)
    → check_models i seen (m ∷ ms) ≡ none
    → (m.name ≢ "")
      × (any (λ n. n == m.name) seen ≡ false)
      × (validate_config m ≡ none)
      × (check_models (i + 1) (m.name ∷ seen) ms ≡ none)
unfolding check_models
check_models_step i seen m ms h =
    (λ e. ground (arith, eq_iff m.name ""), ground arith, ground arith, ground arith)

-- A name that was seen does not come again.
check_models_fresh :
    (i : ℕ) (seen : List String) (x : String) (ms : List ModelConfig)
    → check_models i seen ms ≡ none
    → any (λ n. n == x) seen ≡ true
    → any (λ n. n == x) (names ms) ≡ false
check_models_fresh i seen x [] h s = refl
check_models_fresh i seen x (m ∷ ms) h s =
    let (named, new, valid, rest) = check_models_step i seen m ms h in
    let later = check_models_fresh (i + 1) (m.name ∷ seen) x ms rest (ground arith) in
    ground (arith, eq_iff m.name x)

-- A list of models that the endpoint accepts.
abbrev pub Accepted : List ModelConfig → Type 0
Accepted ms = Distinct (names ms) × All (λ m. (m.name ≢ "") × (validate_config m ≡ none)) ms

check_models_sound :
    (i : ℕ) (seen : List String) (ms : List ModelConfig)
    → check_models i seen ms ≡ none
    → Accepted ms
check_models_sound i seen [] h = (tt, tt)
check_models_sound i seen (m ∷ ms) h =
    let (named, new, valid, rest) = check_models_step i seen m ms h in
    let (distinct, all) = check_models_sound (i + 1) (m.name ∷ seen) ms rest in
    (
      (
        check_models_fresh (i + 1) (m.name ∷ seen) m.name ms rest
            (ground (arith, eq_iff m.name m.name)),
        distinct,
      ),
      ((named, valid), all),
    )

module _ (etag_of : String → String) (decode : String → Option Config) where
  -- What a save that succeeded went through.
  pub record Checked (body if_match : String) (file : File) : Type 0 where
    pub config : Config
    pub decoded : decode body ≡ some config
    pub accepted : Accepted config.models
    pub unchanged : check_if_match etag_of if_match file ≡ none

  save_checked :
      (body if_match : String) (file : File) (writes reloads : Bool) (etag : String)
      → let (file', answer) = save_config etag_of decode body if_match file writes reloads in
        (answer ≡ saved etag) ⊎ (answer ≡ reload_pending etag)
        → (file' ≡ content body)
          × (etag ≡ etag_of body)
          × ((cfg : Config) × (decode body ≡ some cfg)
              × (check_models 0 [] cfg.models ≡ none)
              × (check_if_match etag_of if_match file ≡ none))
  unfolding save_config
  save_checked body if_match file writes reloads etag h = elim (Option-cases (decode body)) [
    | inl q ↦ absurd (ground arith)
    | inr (cfg, q) ↦ (ground arith, ground arith, (cfg, q, ground arith, ground arith))
  ]

  -- A save either is refused and leaves the file as it was, or writes exactly the body that was sent
  -- and answers with that body's ETag. The latter happens only if the body decodes, its models are
  -- named, pairwise differently, and pass validation, and the If-Match check passed.
  pub save_config_lem :
      (body if_match : String) (file : File) (writes reloads : Bool)
      → let (file', answer) = save_config etag_of decode body if_match file writes reloads in
        ((r : Refusal) → answer ≡ refused r → file' ≡ file)
        × ((etag : String)
            → (answer ≡ saved etag) ⊎ (answer ≡ reload_pending etag)
            → (file' ≡ content body) × (etag ≡ etag_of body) × Checked body if_match file)
  save_config_lem body if_match file writes reloads = (
    λ r. unfold save_config in λ e. ground arith,
    λ etag h.
        let (written, tag, (cfg, decoded, checked, match)) =
          save_checked body if_match file writes reloads etag h in
        (
          written,
          tag,
          record {
            config = cfg;
            decoded = decoded;
            accepted = check_models_sound 0 [] cfg.models checked;
            unchanged = match;
          },
        ),
  )

  Saved-cases :
      (s : Saved)
      → ((r : Refusal) × (s ≡ refused r))
        ⊎ ((etag : String) × ((s ≡ saved etag) ⊎ (s ≡ reload_pending etag)))
  Saved-cases (refused r) = inl (r, refl)
  Saved-cases (saved etag) = inr (etag, inl refl)
  Saved-cases (reload_pending etag) = inr (etag, inr refl)

  check_if_match_stale :
      (if_match current : String)
      → trim_space if_match ≢ ""
      → trim_space if_match ≢ "*"
      → etag_matches (trim_space if_match) (etag_of current) ≡ false
      → check_if_match etag_of if_match (content current) ≢ none
  unfolding check_if_match
  check_if_match_stale if_match current given star stale =
      ground (arith, eq_iff (trim_space if_match) "", eq_iff (trim_space if_match) "*")

  -- A client that sends as If-Match an ETag which no longer names the file's content overwrites
  -- nothing, whatever it sends: the file keeps its content and the answer is a refusal.
  pub save_config_stale :
      (body if_match current : String) (writes reloads : Bool)
      → trim_space if_match ≢ ""
      → trim_space if_match ≢ "*"
      → etag_matches (trim_space if_match) (etag_of current) ≡ false
      → let (file', answer) =
          save_config etag_of decode body if_match (content current) writes reloads in
        (file' ≡ content current) × ((r : Refusal) × (answer ≡ refused r))
  save_config_stale body if_match current writes reloads given star stale =
      let answer = (save_config etag_of decode body if_match (content current) writes reloads).1 in
      let l = save_config_lem body if_match (content current) writes reloads in
      elim (Saved-cases answer) [
        | inl (r, e) ↦ (l.0 r e, (r, e))
        | inr (etag, e) ↦
            absurd (check_if_match_stale if_match current given star stale (l.1 etag e).2.unchanged)
      ]

  -- Two clients that loaded the same content and both save: once the first save went through with a
  -- body of another ETag, the second is refused and the first client's body stays.
  pub no_lost_update :
      (file : File) (first second etag : String) (answer_tag : String) (writes reloads : Bool)
      → trim_space etag ≢ ""
      → trim_space etag ≢ "*"
      → (save_config etag_of decode first etag file writes reloads).1 ≡ saved answer_tag
      → etag_matches (trim_space etag) (etag_of first) ≡ false
      → let after_first = (save_config etag_of decode first etag file writes reloads).0 in
        let (file', answer) = save_config etag_of decode second etag after_first writes reloads in
        (file' ≡ content first) × ((r : Refusal) × (answer ≡ refused r))
  no_lost_update file first second etag answer_tag writes reloads given star ok stale =
      let written = ((save_config_lem first etag file writes reloads).1 answer_tag (inl ok)).0 in
      rw written (save_config_stale second etag first writes reloads given star stale)
