-- ===== src/Server/Index.antt =====
-- server/server.go: indexModels. The warnings about aliases are output only.
use llm_server_manager.Base.{
  ◌≡◌, refl, ◌∙◌, ap, String, ◌==◌, eq_iff, Option, none, some, List, [], ◌∷◌, if◌then◌else◌,
  lookup, insert, lookup-insert, arith, ◌≢◌,
}
use llm_server_manager.Models.{ModelConfig}

-- The loop over the list, with the models indexed so far.
unfoldable pub index_from :
    List (String × ModelConfig) → List ModelConfig → List (String × ModelConfig)
index_from indexed [] = indexed
index_from indexed (m ∷ ms) =
    index_from (if m.name == "" then indexed else insert m.name m indexed) ms

unfoldable pub index_models : List ModelConfig → List (String × ModelConfig)
unfolding index_from
index_models ms = index_from [] ms

-- The last model of a list that has the name, or what was there before.
abbrev pub last_named : String → Option ModelConfig → List ModelConfig → Option ModelConfig
last_named k o [] = o
last_named k o (m ∷ ms) = last_named k (if m.name == k then some m else o) ms

index_from-lookup :
    (k : String) (indexed : List (String × ModelConfig)) (ms : List ModelConfig)
    → k ≢ ""
    → lookup k (index_from indexed ms) ≡ last_named k (lookup k indexed) ms
unfolding index_from
index_from-lookup k indexed [] n = refl
index_from-lookup k indexed (m ∷ ms) n =
    index_from-lookup k (if m.name == "" then indexed else insert m.name m indexed) ms n
    ∙ ap (λ o. last_named k o ms)
        (ground (arith, eq_iff m.name "", eq_iff m.name k, lookup-insert m.name k m indexed))

index_from-no_empty :
    (indexed : List (String × ModelConfig)) (ms : List ModelConfig)
    → lookup "" indexed ≡ none
    → lookup "" (index_from indexed ms) ≡ none
unfolding index_from
index_from-no_empty indexed [] h = h
index_from-no_empty indexed (m ∷ ms) h =
    index_from-no_empty (if m.name == "" then indexed else insert m.name m indexed) ms
      (ground (arith, eq_iff m.name "", lookup-insert m.name "" m indexed))

-- Of several models with one name the last one in the configuration is kept; every named model is
-- found under its name, and none without a name is.
pub index_models-lookup :
    (ms : List ModelConfig)
    → ((k : String) → k ≢ "" → lookup k (index_models ms) ≡ last_named k none ms)
      × (lookup "" (index_models ms) ≡ none)
unfolding index_models lookup
index_models-lookup ms = (λ k n. index_from-lookup k [] ms n, index_from-no_empty [] ms refl)
