-- ===== src/Handlers/Origins.antt =====
-- handlers/handlers.go: the part of New that reads LLM_ALLOWED_ORIGINS, and what CORS makes of it. The keys
-- of the Go map are a list.
use llm_server_manager.Base.{
  ◌≡◌, refl, ◌≢◌, ◌↔◌, ◌∙◌, String, ◌==◌, eq_iff, Bool, true, false, ◌&&◌, ◌||◌, not, List, [], ◌∷◌,
  eqb, any, length, if◌then◌else◌, trim_space, split_at, split_from, trim_left, trim_right, sym,
  arith, Bool-cases, inl, inr,
}
use llm_server_manager.Handlers.Access.{forbidden, cors}
use llm_server_manager.Handlers.Admission.{cors_lem}

-- allowedOrigins[origin] = true, unless the origin is empty.
unfoldable pub add_origin : String → List String → List String
add_origin o origins = if o == "" || any (λ k. k == o) origins then origins else o ∷ origins

unfoldable pub add_origins : List String → List String → List String
add_origins [] origins = origins
add_origins (p ∷ ps) origins = add_origins ps (add_origin (trim_space p) origins)

unfoldable pub allowed_origins : String → List String
unfolding add_origins
allowed_origins env = if env == "" then [] else add_origins (split_at b',' env) []

-- A part of the text that names an origin, and one that names this origin.
abbrev pub names_one : String → Bool
names_one p = not (trim_space p == "")

abbrev pub names : String → String → Bool
names o p = names_one p && trim_space p == o

any-add_origin :
    (o x : String) (origins : List String)
    → any (λ k. k == o) (add_origin x origins)
      ≡ (not (x == "") && x == o || any (λ k. k == o) origins)
unfolding add_origin
any-add_origin o x origins = ground (arith, eq_iff x o)

any-add_origins :
    (o : String) (ps origins : List String)
    → any (λ k. k == o) (add_origins ps origins) ≡ (any (names o) ps || any (λ k. k == o) origins)
unfolding add_origins
any-add_origins o [] origins = refl
any-add_origins o (p ∷ ps) origins = ground (
  arith,
  any-add_origins o ps (add_origin (trim_space p) origins),
  any-add_origin o (trim_space p) origins,
)

none-add_origin :
    (x : String) (origins : List String)
    → eqb (length (add_origin x origins)) 0 ≡ (x == "" && eqb (length origins) 0)
unfolding add_origin
none-add_origin x [] = ground arith
none-add_origin x (o ∷ origins) = ground arith

none-add_origins :
    (ps origins : List String)
    → eqb (length (add_origins ps origins)) 0 ≡ (not (any names_one ps) && eqb (length origins) 0)
unfolding add_origins
none-add_origins [] origins = refl
none-add_origins (p ∷ ps) origins = ground (
  arith,
  none-add_origins ps (add_origin (trim_space p) origins),
  none-add_origin (trim_space p) origins,
)

any-allowed_origins :
    (o env : String) → any (λ k. k == o) (allowed_origins env) ≡ any (names o) (split_at b',' env)
unfolding allowed_origins split_at split_from trim_space trim_left trim_right
any-allowed_origins o env = elim (Bool-cases (env == "")) [
  | inl y ↦ rw ((eq_iff env "").0 y) refl
  | inr n ↦ ground (arith, any-add_origins o (split_at b',' env) [])
]

none-allowed_origins :
    (env : String) → eqb (length (allowed_origins env)) 0 ≡ not (any names_one (split_at b',' env))
unfolding allowed_origins split_at split_from trim_space trim_left trim_right
none-allowed_origins env = elim (Bool-cases (env == "")) [
  | inl y ↦ rw ((eq_iff env "").0 y) refl
  | inr n ↦ ground (arith, none-add_origins (split_at b',' env) [])
]

-- A request is turned away exactly if it names an origin, some part of LLM_ALLOWED_ORIGINS between commas is
-- more than white space, and no part is the origin, up to the white space around it.
pub cors-allowed_origins :
    (env origin method : String)
    → let parts = split_at b',' env in
      (cors (allowed_origins env) origin method ≡ forbidden)
      ↔ ((origin ≢ "") × (any names_one parts ≡ true) × (any (names origin) parts ≡ false))
cors-allowed_origins env origin method =
    let lem = (cors_lem (allowed_origins env) origin method).0 in
    let nonempty = none-allowed_origins env in
    let same = any-allowed_origins origin env in
    (
      λ e. let h = lem.0 e in (h.0, ground (arith, nonempty, h.1), sym same ∙ h.2),
      λ h. lem.1 (h.0, ground (arith, nonempty, h.1), same ∙ h.2),
    )
