-- ===== src/Handlers/LocalItems.antt =====
-- handlers/handlers.go: what the list of models shows, and what another machine reads from it.
use llm_server_manager.Base.{
  ◌≡◌, ◌↔◌, ◌==◌, eq_iff, refl, sym, subst, inl, inr, ◌∙◌, String, Bool, true, false, Option, none,
  some, List, [], ◌∷◌, ℕ, codes, any, keep, length, All, All-mono, arith, if_cases, Bool-cases,
}
use llm_server_manager.Models.{
  ModelConfig, ModelItem, RunningServer, ServerStatus, starting, running, stopping,
}
use llm_server_manager.Manager.State.{Manager, is_running, get_current_server}
use llm_server_manager.Fleet.Port.{routable_port}
use llm_server_manager.Fleet.Worker.{RunningModel, running_from_items}
use llm_server_manager.Proxy.Table.{keys, publish_name}
use llm_server_manager.Handlers.Items.{
  hide_unused, is_active, item_of, codes_before, name_before, insert_item, sort_items, items_of,
  local_model_items,
}

-- What the list hides of a model changes neither the port that it is reached on nor the names that it
-- is routed and published under: another machine that reads the list routes as this one does.
pub routable_port-hide_unused :
    (c : ModelConfig)
    → (routable_port (hide_unused c) ≡ routable_port c)
      × (keys (hide_unused c) ≡ keys c)
      × (publish_name (hide_unused c) ≡ publish_name c)
unfolding hide_unused routable_port keys publish_name
routable_port-hide_unused c = (ground arith, ground arith, ground arith)

codes_before_asym : (s t : List ℕ) → codes_before s t ≡ true → codes_before t s ≡ false
codes_before_asym [] [] h = refl
codes_before_asym [] (d ∷ t) h = refl
codes_before_asym (c ∷ s) [] h = cc
codes_before_asym (c ∷ s) (d ∷ t) h = ground (arith, codes_before_asym s t)

codes_before_trans :
    (s t u : List ℕ)
    → codes_before t s ≡ false
    → codes_before u t ≡ false
    → codes_before u s ≡ false
codes_before_trans [] t [] h k = refl
codes_before_trans [] t (e ∷ u) h k = refl
codes_before_trans (c ∷ s) [] u h k = cc
codes_before_trans (c ∷ s) (d ∷ t) [] h k = cc
codes_before_trans (c ∷ s) (d ∷ t) (e ∷ u) h k = ground (arith, codes_before_trans s t u)

-- Each item comes before all that follow, or has the same name.
abbrev pub Sorted : List ModelItem → Type 0
Sorted [] = Unit
Sorted (x ∷ xs) = All (λ y. name_before y x ≡ false) xs × Sorted xs

module _ {κ} (P : ModelItem → Type κ) where
  insert_item-All :
      (x : ModelItem) (ys : List ModelItem) → P x → All P ys → All P (insert_item x ys)
  unfolding insert_item
  insert_item-All x [] p h = (p, tt)
  insert_item-All x (y ∷ ys) p h =
      if_cases (All P) (name_before y x) (λ b. (h.0, insert_item-All x ys p h.1)) (λ b. (p, h))

  sort_items-All : (xs : List ModelItem) → All P xs → All P (sort_items xs)
  unfolding sort_items
  sort_items-All [] h = tt
  sort_items-All (x ∷ xs) h = insert_item-All x (sort_items xs) h.0 (sort_items-All xs h.1)

  items_of-All :
      (current : Option RunningServer) (cs : List (String × ModelConfig))
      → ((c : ModelConfig) → P (item_of current c))
      → All P (items_of current cs)
  unfolding items_of
  items_of-All current [] h = tt
  items_of-All current ((name, c) ∷ cs) h = (h c, items_of-All current cs h)

name_before_trans :
    (x y z : ModelItem)
    → name_before y x ≡ false
    → name_before z y ≡ false
    → name_before z x ≡ false
name_before_trans x y z =
    codes_before_trans (codes x.model_config.name) (codes y.model_config.name)
      (codes z.model_config.name)

name_before_asym : (x y : ModelItem) → name_before x y ≡ true → name_before y x ≡ false
name_before_asym x y = codes_before_asym (codes x.model_config.name) (codes y.model_config.name)

insert_item-Sorted : (x : ModelItem) (ys : List ModelItem) → Sorted ys → Sorted (insert_item x ys)
unfolding insert_item
insert_item-Sorted x [] h = (tt, tt)
insert_item-Sorted x (y ∷ ys) h =
    if_cases Sorted (name_before y x)
      (λ b. (
        insert_item-All (λ z. name_before z y ≡ false) x ys (name_before_asym y x b) h.0,
        insert_item-Sorted x ys h.1,
      ))
      (λ b. ((b, All-mono ys (λ z k. name_before_trans x y z b k) h.0), h))

sort_items-Sorted : (xs : List ModelItem) → Sorted (sort_items xs)
unfolding sort_items
sort_items-Sorted [] = tt
sort_items-Sorted (x ∷ xs) = insert_item-Sorted x (sort_items xs) (sort_items-Sorted xs)

insert_item-keep :
    (p : ModelItem → Bool) (x : ModelItem) (ys : List ModelItem)
    → length (keep p (insert_item x ys)) ≡ length (keep p (x ∷ ys))
unfolding insert_item
insert_item-keep p x [] = refl
insert_item-keep p x (y ∷ ys) = ground (arith, insert_item-keep p x ys)

sort_items-keep :
    (p : ModelItem → Bool) (xs : List ModelItem)
    → length (keep p (sort_items xs)) ≡ length (keep p xs)
unfolding sort_items
sort_items-keep p [] = refl
sort_items-keep p (x ∷ xs) =
    insert_item-keep p x (sort_items xs) ∙ ground (arith, sort_items-keep p xs)

-- A server is recorded as running under the name.
abbrev pub RunsNamed : Option RunningServer → String → Type 0
RunsNamed current name =
    (s : RunningServer) × (current ≡ some s) × (s.status ≡ running) × (s.model_config.name ≡ name)

status_running : (s : ServerStatus) → is_running s ≡ true → s ≡ running
status_running running e = refl
status_running starting e = cc
status_running stopping e = cc

is_active_iff :
    (current : Option RunningServer) (name : String)
    → (is_active current name ≡ true) ↔ RunsNamed current name
is_active_iff none name = (λ e. cc, λ h. let e = h.1 in cc)
is_active_iff (some s) name = (
  λ e. (
    s,
    refl,
    status_running s.status (ground arith),
    ground (arith, eq_iff s.model_config.name name),
  ),
  λ h.
      let (t, same, runs, named) = h in
      let z : t ≡ s = cc in ground (arith, runs, named, eq_iff s.model_config.name name),
)

-- What a list of items shows of the models, for the server that runs.
pub record Shows (current : Option RunningServer) (cs : List (String × ModelConfig))
    (items : List ModelItem) : Type 0 where
  pub sorted : Sorted items
  pub complete :
      (p : ModelItem → Bool)
      → length (keep p items) ≡ length (keep (λ e. p (item_of current e.1)) cs)
  pub active : All (λ i. (i.active ≡ true) ↔ RunsNamed current i.model_config.name) items

item_of-active :
    (current : Option RunningServer) (c : ModelConfig)
    → ((item_of current c).active ≡ true) ↔ RunsNamed current (item_of current c).model_config.name
unfolding item_of hide_unused
item_of-active current c =
    let h = is_active_iff current c.name in
    subst (λ n. (is_active current c.name ≡ true) ↔ RunsNamed current n) (ground arith) h

items_of-keep :
    (p : ModelItem → Bool) (current : Option RunningServer) (cs : List (String × ModelConfig))
    → length (keep p (items_of current cs)) ≡ length (keep (λ e. p (item_of current e.1)) cs)
unfolding items_of
items_of-keep p current [] = refl
items_of-keep p current ((name, c) ∷ cs) = ground (arith, items_of-keep p current cs)

sort_items-Shows :
    (current : Option RunningServer) (cs : List (String × ModelConfig))
    → Shows current cs (sort_items (items_of current cs))
sort_items-Shows current cs =
    let all =
      items_of-All (λ i. (i.active ≡ true) ↔ RunsNamed current i.model_config.name) current cs
        (item_of-active current) in
    record {
      sorted = sort_items-Sorted (items_of current cs);
      complete = λ p. sort_items-keep p (items_of current cs) ∙ items_of-keep p current cs;
      active =
          sort_items-All (λ i. (i.active ≡ true) ↔ RunsNamed current i.model_config.name)
            (items_of current cs) all;
    }

current_is_server :
    (processes : List ℕ) (m : Manager)
    → (get_current_server processes m).1 ≡ (get_current_server processes m).0.server
unfolding get_current_server
current_is_server processes m = ground arith

-- The list has every configured model as often as the configuration has it, shown as an item, in the
-- order of the names. An item is active exactly if a server is recorded, its status is running and it has
-- the item's name.
pub local_model_items-Shows :
    (processes : List ℕ) (m : Manager)
    → let (m', items) = local_model_items processes m in Shows m'.server m.configs items
unfolding local_model_items
local_model_items-Shows processes m =
    subst
      (λ o. Shows o m.configs (sort_items (items_of (get_current_server processes m).1 m.configs)))
      (current_is_server processes m)
      (sort_items-Shows (get_current_server processes m).1 m.configs)

running_from_items-active :
    (current : Option RunningServer) (items : List ModelItem) (x : RunningModel)
    → All (λ i. (i.active ≡ true) ↔ RunsNamed current i.model_config.name) items
    → running_from_items items ≡ some x
    → RunsNamed current x.name
unfolding running_from_items
running_from_items-active current [] x h e = cc
running_from_items-active current (i ∷ items) x h e = elim (Bool-cases i.active) [
  | inl y ↦ subst (RunsNamed current) (ground arith) (h.0.0 y)
  | inr n ↦ running_from_items-active current items x h.1 (ground arith)
]

running_from_items-none :
    (items : List ModelItem)
    → running_from_items items ≡ none
    → length (keep (λ i. i.active) items) ≡ 0
unfolding running_from_items
running_from_items-none [] e = refl
running_from_items-none (i ∷ items) e = ground (arith, running_from_items-none items)

none_active :
    (s : RunningServer) (cs : List (String × ModelConfig))
    → s.status ≡ running
    → length (keep (λ e. (item_of (some s) e.1).active) cs) ≡ 0
    → any (λ e. e.1.name == s.model_config.name) cs ≡ false
unfolding item_of
none_active s [] runs h = refl
none_active s ((name, c) ∷ cs) runs h = ground (
  arith,
  none_active s cs runs,
  eq_iff s.model_config.name c.name,
  eq_iff c.name s.model_config.name,
)

-- Another machine that reads the list of models finds a model as running only if a server is recorded
-- with status running under its name; and it finds none only if no server has that status, or the
-- one that has it is not in the configuration any more.
pub running_from_items-local :
    (processes : List ℕ) (m : Manager)
    → let (m', items) = local_model_items processes m in
      ((x : RunningModel) → running_from_items items ≡ some x → RunsNamed m'.server x.name)
      × (running_from_items items ≡ none
          → (s : RunningServer) → m'.server ≡ some s
          → s.status ≡ running
          → any (λ e. e.1.name == s.model_config.name) m.configs ≡ false)
running_from_items-local processes m =
    let shows = local_model_items-Shows processes m in
    let (m', items) = local_model_items processes m in
    (
      λ x. running_from_items-active m'.server items x shows.active,
      λ e s held runs. none_active s m.configs runs (
          subst (λ o. length (keep (λ e. (item_of o e.1).active) m.configs) ≡ 0) held
            (sym (shows.complete (λ i. i.active)) ∙ running_from_items-none items e)),
    )
