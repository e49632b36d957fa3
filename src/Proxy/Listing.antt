-- ===== src/Proxy/Listing.antt =====
-- proxy/handler.go: ListModels with its ETag. SHA-256, on a list of bytes, and the bytes of a text (its
-- UTF-8 form) are parameters.

use llm_server_manager.Base.{String, Bool, List, [], ◌∷◌, ◌++◌, ℕ, if◌then◌else◌, codes, decimal}
use llm_server_manager.Handlers.Etag.{etag_matches, quoted}
use llm_server_manager.Handlers.Items.{codes_before}
use llm_server_manager.Proxy.Table.{PublishedModel}
use llm_server_manager.Proxy.Router.{Router, View, list_entries}

abbrev pub id_before : PublishedModel → PublishedModel → Bool
id_before x y = codes_before (codes x.id) (codes y.id)

unfoldable pub insert_model : PublishedModel → List PublishedModel → List PublishedModel
insert_model x [] = x ∷ []
insert_model x (y ∷ ys) = if id_before y x then y ∷ insert_model x ys else x ∷ y ∷ ys

-- sort.Slice by ID.
unfoldable pub sort_models : List PublishedModel → List PublishedModel
unfolding insert_model
sort_models [] = []
sort_models (x ∷ xs) = insert_model x (sort_models xs)

module _ (bytes : String → List ℕ) where
  -- What modelsETag writes into the sum.
  unfoldable pub etag_input : List PublishedModel → List ℕ
  etag_input [] = []
  etag_input (m ∷ ms) = bytes m.id ++ 0 ∷ (decimal m.created ++ 0 ∷ etag_input ms)

  -- modelsETag.
  unfoldable pub models_etag : (List ℕ → List ℕ) → List PublishedModel → String
  unfolding etag_input quoted
  models_etag sum ms = quoted (sum (etag_input ms))

-- The answer with the ETag header; `full` has the list.
pub data Listing : Type 0 where
  unchanged : String → Listing
  listed : String → List PublishedModel → Listing

unfoldable pub answer_list : String → String → List PublishedModel → Listing
answer_list etag if_none_match ms =
    if etag_matches if_none_match etag then unchanged etag else listed etag ms

-- ListModels.
unfoldable pub list_models_endpoint :
    (String → List ℕ) → (List ℕ → List ℕ) → Router → ℕ → View → String → Router × Listing
unfolding list_entries models_etag sort_models answer_list
list_models_endpoint bytes sum r now v if_none_match =
    let (r', entries) = list_entries r now v in
    let ms = sort_models entries in (r', answer_list (models_etag bytes sum ms) if_none_match ms)
