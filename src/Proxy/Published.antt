-- ===== src/Proxy/Published.antt =====
-- proxy/proxy.go: the list behind GET /v1/models.
use llm_server_manager.Base.{
  ◌≡◌, refl, sym, ap, ◌∙◌, subst, ◌≢◌, inl, inr, String, ◌==◌, eq_iff, eq_refl, Bool, true, false,
  ◌&&◌, ◌||◌, not, Option, none, some, List, [], ◌∷◌, ◌++◌, ℕ, if◌then◌else◌, lookup, any, arith,
  Option-cases, if_cases, All, All-append, All-mono,
}
use llm_server_manager.Models.{ModelConfig}
use llm_server_manager.Fleet.Port.{routable_port}
use llm_server_manager.Proxy.Table.{
  Target, PublishedModel, Source, Build, publish_name, keys, claim_name, append_target, add_keys,
  publish, target_of, add_target, empty_build, build,
}
use llm_server_manager.Proxy.Routes.{publishes, add_routes, add_keys-lookup}

-- No text stands twice.
abbrev pub Distinct : List String → Type 0
Distinct [] = Unit
Distinct (x ∷ xs) = (any (λ y. y == x) xs ≡ false) × Distinct xs

abbrev pub ids : List PublishedModel → List String
ids [] = []
ids (e ∷ es) = e.id ∷ ids es

any-append : (p : String → Bool) (xs ys : List String) → any p (xs ++ ys) ≡ (any p xs || any p ys)
any-append p [] ys = refl
any-append p (x ∷ xs) ys = ground (arith, any-append p xs ys)

Distinct-append :
    (xs : List String) (y : String)
    → any (λ x. x == y) xs ≡ false
    → Distinct xs
    → Distinct (xs ++ y ∷ [])
Distinct-append [] y h d = (refl, tt)
Distinct-append (x ∷ xs) y h d = (
  any-append (λ z. z == x) xs (y ∷ []) ∙ ground (arith, eq_iff x y, eq_iff y x),
  Distinct-append xs y (ground arith) d.1,
)

ids-append :
    (es : List PublishedModel) (e : PublishedModel) → ids (es ++ e ∷ []) ≡ ids es ++ e.id ∷ []
ids-append [] e = refl
ids-append (x ∷ es) e = ap (λ t. x.id ∷ t) (ids-append es e)

-- An entry of the table that has a target.
abbrev pub has_target : Option (List Target) → Bool
has_target (some (t ∷ ts)) = true
has_target _ = false

-- An entry that a client can use: named, and with a target in the table.
abbrev pub Reachable : List (String × List Target) → PublishedModel → Type 0
Reachable table e = (e.id ≢ "") × (has_target (lookup e.id table) ≡ true)

record Consistent (b : Build) : Type 0 where
  seen : b.seen ≡ ids b.entries
  distinct : Distinct (ids b.entries)
  reachable : All (Reachable b.table) b.entries

add_routes-some :
    (o : Option (List Target)) (ts : List Target)
    → has_target o ≡ true
    → has_target (add_routes o ts) ≡ true
add_routes-some o [] h = h
add_routes-some none (t ∷ ts) h = refl
add_routes-some (some []) (t ∷ ts) h = refl
add_routes-some (some (u ∷ us)) (t ∷ ts) h = refl

add_routes-one : (o : Option (List Target)) (t : Target) → has_target (add_routes o (t ∷ [])) ≡ true
add_routes-one none t = refl
add_routes-one (some []) t = refl
add_routes-one (some (u ∷ us)) t = refl

add_keys-entries :
    (t : Target) (ks : List (String × Bool)) (b : Build)
    → ((add_keys t ks b).entries ≡ b.entries) × ((add_keys t ks b).seen ≡ b.seen)
unfolding add_keys append_target claim_name
add_keys-entries t [] b = (refl, refl)
add_keys-entries t ((k, a) ∷ ks) b =
    ground (arith, add_keys-entries t ks (append_target k t (claim_name t.machine (k, a) b)))

publishes-publish_name : (c : ModelConfig) → publishes (publish_name c) c ≡ true
unfolding publish_name
publishes-publish_name c = ground (arith, eq_refl c.alias, eq_refl c.name)

-- The name that a routable model is published by is in the table once its keys are.
published_has_target :
    (t : Target) (c : ModelConfig) (b : Build)
    → has_target (lookup (publish_name c) (add_keys t (keys c) b).table) ≡ true
published_has_target t c b =
    rw (add_keys-lookup (publish_name c) t c b, publishes-publish_name c)
      (add_routes-one (lookup (publish_name c) b.table) t)

add_keys-Consistent :
    (t : Target) (c : ModelConfig) (b : Build) → Consistent b → Consistent (add_keys t (keys c) b)
add_keys-Consistent t c b k =
    let (same, same_seen) = add_keys-entries t (keys c) b in
    record {
      seen = rw (same, same_seen) k.seen;
      distinct = rw same k.distinct;
      reachable = rw same (
          All-mono {Q = Reachable (add_keys t (keys c) b).table} b.entries
            (λ e h. (
              h.0,
              rw (add_keys-lookup e.id t c b) (
                  add_routes-some (lookup e.id b.table) (if publishes e.id c then t ∷ [] else [])
                    h.1),
            ))
            k.reachable);
    }

publish-Consistent :
    (c : ModelConfig) (n : ℕ) (b : Build)
    → has_target (lookup (publish_name c) b.table) ≡ true
    → Consistent b
    → Consistent (publish c n b)
unfolding publish
publish-Consistent c n b known k =
    if_cases Consistent (not (publish_name c == "") && not (any (λ s. s == publish_name c) b.seen))
      (λ h. record {
        seen =
            ap (λ s. s ++ publish_name c ∷ []) k.seen
            ∙ sym (ids-append b.entries (record { id = publish_name c; created = n }));
        distinct = rw (ids-append b.entries (record { id = publish_name c; created = n })) (
            Distinct-append (ids b.entries) (publish_name c)
              (subst (λ s. any (λ t. t == publish_name c) s ≡ false) k.seen (ground arith))
              k.distinct);
        reachable =
            All-append (Reachable b.table) b.entries
              (record { id = publish_name c; created = n } ∷ []) k.reachable
              ((λ e. ground (arith, eq_iff (publish_name c) ""), known), tt);
      })
      (λ _. k)

add_target-Consistent : (s : Source) (b : Build) → Consistent b → Consistent (add_target s b)
unfolding add_target
add_target-Consistent s b k = elim (Option-cases (routable_port s.config)) [
  | inl q ↦ rw (q, add_target) k
  | inr (port, q) ↦
      rw (q, add_target)
        (publish-Consistent s.config s.created (add_keys (target_of s port) (keys s.config) b)
          (published_has_target (target_of s port) s.config b)
          (add_keys-Consistent (target_of s port) s.config b k))
]

build-Consistent : (ss : List Source) (b : Build) → Consistent b → Consistent (build ss b)
unfolding build
build-Consistent [] b k = k
build-Consistent (s ∷ ss) b k = build-Consistent ss (add_target s b) (add_target-Consistent s b k)

empty-Consistent : Consistent empty_build
empty-Consistent = record { seen = refl; distinct = tt; reachable = tt }

-- No two models of the published list have the same id, and each id is a name under which the table
-- of the same rebuild has a target: what GET /v1/models lists can be asked for.
pub build-published :
    (ss : List Source)
    → let b = build ss empty_build in
      Distinct (ids b.entries)
      × All (λ e. (e.id ≢ "") × (has_target (lookup e.id b.table) ≡ true)) b.entries
build-published ss =
    let k = build-Consistent ss empty_build empty-Consistent in (k.distinct, k.reachable)
