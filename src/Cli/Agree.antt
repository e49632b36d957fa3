-- ===== src/Cli/Agree.antt =====
-- tools/cli/commands, with models/models.go and fleet/fleet.go: what the client shows of what the server sends.
use Prim.Native.Nat.{zero}
use llm_server_manager.Base.{
  ◌≡◌, refl, ap, ◌∙◌, String, ◌==◌, Bool, true, false, Option, none, some, List, [], ◌∷◌, ℤ, pos,
  Float64, neg_zero, finite, if◌then◌else◌, lookup, map, All, arith,
}
use llm_server_manager.Models.{ModelItem}
use llm_server_manager.Cli.Tables.{
  Field, bool, number, text, Element, object, array, data_models, ListRow, row_from, list_row,
  list_rows, run_list, table, as_int, as_number, print_rows,
}

-- The omitempty of a number: 0 and -0 are left out.
abbrev is_zero_float : Float64 → Bool
is_zero_float neg_zero = true
is_zero_float (finite (pos zero)) = true
is_zero_float _ = false

abbrev is_zero_int : ℤ → Bool
is_zero_int (pos zero) = true
is_zero_int _ = false

-- An object, from its fields in order; a field with no value is left out.
unfoldable pub present : List (String × Option Field) → List (String × Field)
present [] = []
present ((key, none) ∷ fs) = present fs
present ((key, some v) ∷ fs) = (key, v) ∷ present fs

abbrev or_else : Option Field → Option Field → Option Field
or_else none o = o
or_else (some v) o = some v

-- The first value of a field.
abbrev value_of : String → List (String × Option Field) → Option Field
value_of key [] = none
value_of key ((name, o) ∷ fs) = if name == key then or_else o (value_of key fs) else value_of key fs

lookup-present :
    (key : String) (fs : List (String × Option Field)) → lookup key (present fs) ≡ value_of key fs
unfolding lookup present
lookup-present key [] = refl
lookup-present key ((name, none) ∷ fs) = ground (arith, lookup-present key fs)
lookup-present key ((name, some v) ∷ fs) = ground (arith, lookup-present key fs)

abbrev nonempty : String → Option Field
nonempty s = if s == "" then none else some (text s)

abbrev string_field : Option String → Option Field
string_field none = none
string_field (some s) = some (text s)

abbrev float_field : Option Float64 → Option Field
float_field none = none
float_field (some v) = some (number v)

abbrev bool_field : Option Bool → Option Field
bool_field none = none
bool_field (some b) = some (bool b)

abbrev pub nonzero_float : Float64 → Option Float64
nonzero_float v = if is_zero_float v then none else some v

abbrev pub nonzero_int : ℤ → Option ℤ
nonzero_int z = if is_zero_int z then none else some z

as_number-float_field : (o : Option Float64) → as_number (or_else (float_field o) none) ≡ o
as_number-float_field none = refl
as_number-float_field (some v) = refl

module _ (to_float : ℤ → Float64) where
  abbrev int_field : Option ℤ → Option Field
  int_field none = none
  int_field (some z) = some (number (to_float z))

  -- A ModelItem by the tags of its fields, as the client's decoder reads it.
  abbrev item_fields : ModelItem → List (String × Option Field)
  item_fields item =
      let c = item.model_config in
      ("name", some (text c.name))
      ∷ ("alias", nonempty c.alias)
      ∷ ("model_path", some (text c.model_path))
      ∷ ("context_size", int_field c.context_size)
      ∷ ("temperature", float_field (nonzero_float c.temperature))
      ∷ ("top_k", int_field c.top_k)
      ∷ ("top_p", float_field c.top_p)
      ∷ ("presence_penalty", float_field c.presence_penalty)
      ∷ ("repetition_penalty", float_field c.repetition_penalty)
      ∷ ("threads", int_field (nonzero_int c.threads))
      ∷ ("port", int_field c.port)
      ∷ ("mmproj", string_field c.mmproj)
      ∷ ("chat_template_kwargs", string_field c.chat_template_kwargs)
      ∷ ("ngl", int_field c.ngl)
      ∷ ("mmap", bool_field c.mmap)
      ∷ ("spec-draft-n-max", int_field c.spec_draft_n_max)
      ∷ ("launch_cmd", string_field c.launch_cmd)
      ∷ ("active", some (bool item.active))
      ∷ []

  unfoldable pub encode_item : ModelItem → List (String × Field)
  unfolding present
  encode_item item = present (item_fields item)

  unfoldable pub encode_items : List ModelItem → List Element
  unfolding encode_item
  encode_items [] = []
  encode_items (item ∷ items) = object (encode_item item) ∷ encode_items items

  -- The row that an item is meant to have.
  abbrev pub row_of : ModelItem → ListRow
  row_of item =
      let c = item.model_config in
      record {
        name = some (text c.name);
        model_path = some (text c.model_path);
        context_size = c.context_size;
        temperature = nonzero_float c.temperature;
        threads = nonzero_int c.threads;
        active = item.active;
      }

  module _ (truncate : Float64 → ℤ) where
    -- The integers that the table shows survive the way through a float64.
    abbrev pub Exact : ModelItem → Type 0
    Exact item =
        (truncate (to_float item.model_config.threads) ≡ item.model_config.threads)
        × ((z : ℤ) → item.model_config.context_size ≡ some z → truncate (to_float z) ≡ z)

    as_int-exact :
        (o : Option ℤ)
        → ((z : ℤ) → o ≡ some z → truncate (to_float z) ≡ z)
        → as_int truncate (or_else (int_field o) none) ≡ o
    as_int-exact none exact = refl
    as_int-exact (some z) exact = ap some (exact z refl)

    nonzero-exact :
        (z : ℤ)
        → truncate (to_float z) ≡ z
        → (y : ℤ) → nonzero_int z ≡ some y
        → truncate (to_float y) ≡ y
    nonzero-exact z exact y e = ground (arith, exact, e)

    list_row-encode_item :
        (item : ModelItem) → Exact item → list_row truncate (encode_item item) ≡ row_of item
    unfolding list_row encode_item row_from
    list_row-encode_item item exact =
        let c = item.model_config in
        let context = as_int-exact c.context_size exact.1 in
        let temperature = as_number-float_field (nonzero_float c.temperature) in
        let threads = as_int-exact (nonzero_int c.threads) (nonzero-exact c.threads exact.0) in
        ap (row_from truncate) (λ i key. lookup-present key (item_fields item) i) ∙ (λ i. record {
          name = some (text c.name);
          model_path = some (text c.model_path);
          context_size = context i;
          temperature = temperature i;
          threads = threads i;
          active = item.active;
        })

    list_rows-encode_items :
        (items : List ModelItem)
        → All Exact items
        → list_rows truncate (encode_items items) ≡ some (map row_of items)
    unfolding list_rows encode_items
    list_rows-encode_items [] h = refl
    list_rows-encode_items (item ∷ items) h =
        let rest = list_rows-encode_items items h.1 in
        ap
          (λ o. elim o [
            | none ↦ none
            | some rows ↦ some (list_row truncate (encode_item item) ∷ rows)
          ])
          rest
        ∙ ap (λ row. some (row ∷ map row_of items)) (list_row-encode_item item h.0)

    -- Where the integers of the items survive the way through a float64: the list command prints, for the
    -- list of models that a server sends, one line for each item in the order of the list, with the
    -- item's name, path and activity; N/A stands for a context size that is not set, and for a
    -- temperature or a number of threads that is not set or 0.
    pub run_list-encode_items :
        (items : List ModelItem)
        → All Exact items
        → run_list truncate false (data_models (array (encode_items items)))
          ≡ table (map row_of items)
    unfolding run_list
    run_list-encode_items items h = ap (print_rows truncate false) (list_rows-encode_items items h)
