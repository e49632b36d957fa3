-- ===== src/Proxy/InFlight.antt =====
-- proxy/proxy.go: the map of the rebuilds that refresh keeps, and that each of its steps keeps it in order.
use llm_server_manager.Base.{
  ◌≡◌, ◌∙◌, ◌⊎◌, inl, inr, String, ◌==◌, eq_iff, true, Option, none, some, List, ◌∷◌, ℕ, ◌+◌, ◌<◌,
  eqb, eqb_iff, lookup, insert, erase, any, lookup-insert, lookup-erase, arith, Bool-cases, ◌≢◌,
}
use llm_server_manager.Proxy.Flight.{
  Stage, idle, entering, waiting, collecting, publishing, closing, deleting, Flight, update,
}

-- The name and the group of a request that has begun a rebuild and has not taken its entry out of the
-- map.
abbrev pub owner_of : Stage → Option (String × ℕ)
owner_of (collecting name g) = some (name, g)
owner_of (publishing name g v) = some (name, g)
owner_of (closing name g) = some (name, g)
owner_of (deleting name g) = some (name, g)
owner_of _ = none

-- The same before the group's channel is closed.
abbrev pub builder_of : Stage → Option (String × ℕ)
builder_of (collecting name g) = some (name, g)
builder_of (publishing name g v) = some (name, g)
builder_of (closing name g) = some (name, g)
builder_of _ = none

-- Some request builds for the name and the group.
abbrev pub Builder : (ℕ → Stage) → String → ℕ → Type 0
Builder threads name g = (j : ℕ) × (builder_of (threads j) ≡ some (name, g))

-- The group's channel is closed, or will be by a request that is still at it.
abbrev pub Ends : (ℕ → Stage) → List ℕ → String → ℕ → Type 0
Ends threads closed name g = (any (eqb g) closed ≡ true) ⊎ Builder threads name g

pub record Inv (threads : ℕ → Stage) (inflight : List (String × ℕ)) (closed : List ℕ) (next : ℕ)
    : Type 0 where
  pub owned :
      (i : ℕ) (name : String) (g : ℕ)
      → owner_of (threads i) ≡ some (name, g)
      → (lookup name inflight ≡ some g) × (g < next)
  pub unique :
      (i j : ℕ) (name name' : String) (g : ℕ)
      → owner_of (threads i) ≡ some (name, g)
      → owner_of (threads j) ≡ some (name', g)
      → i ≡ j
  pub entry : (name : String) (g : ℕ) → lookup name inflight ≡ some g → Ends threads closed name g
  pub awaited :
      (i : ℕ) (name : String) (g : ℕ) → threads i ≡ waiting name g → Ends threads closed name g

abbrev pub Sound : Flight → Type 0
Sound f = Inv f.threads f.inflight f.closed f.next

-- A move of thread `i` to a stage that builds what it built before.
Ends-update :
    (threads : ℕ → Stage) (closed : List ℕ) (i : ℕ) (s : Stage) (k : String) (g : ℕ)
    → (builder_of (threads i) ≡ some (k, g) → builder_of s ≡ some (k, g))
    → Ends threads closed k g
    → Ends (update threads i s) closed k g
Ends-update threads closed i s k g keeps (inl y) = inl y
Ends-update threads closed i s k g keeps (inr (j, b)) = inr (j, ground (arith, eqb_iff i j))

module _ (threads : ℕ → Stage) (inflight : List (String × ℕ)) (closed : List ℕ) (next i : ℕ)
    (inv : Inv threads inflight closed next) where
  -- A move that leaves what the thread owns and builds, to a stage that does not wait.
  pub plain :
      (s : Stage)
      → owner_of s ≡ owner_of (threads i)
      → builder_of s ≡ builder_of (threads i)
      → ((k : String) (g : ℕ) → s ≢ waiting k g)
      → Inv (update threads i s) inflight closed next
  plain s owner builder busy = record {
    owned = λ j k g o. ground (arith, eqb_iff i j, inv.owned j k g);
    unique = λ j j' k k' g o o'. ground (arith, eqb_iff i j, eqb_iff i j', inv.unique j j' k k' g);
    entry = λ k g o. Ends-update threads closed i s k g (λ b. builder ∙ b) (inv.entry k g o);
    awaited = λ j k g w.
        Ends-update threads closed i s k g (λ b. builder ∙ b)
          (inv.awaited j k g (ground (arith, busy k g)));
  }

  pub begin :
      (name : String)
      → threads i ≡ entering name
      → lookup name inflight ≡ none
      → Inv (update threads i (collecting name next)) (insert name next inflight) closed (next + 1)
  begin name e absent = record {
    owned = λ j k g o.
        ground
          (arith, eqb_iff i j, lookup-insert name k next inflight, eq_iff name k, inv.owned j k g);
    unique = λ j j' k k' g o o'. ground (
      arith,
      eqb_iff i j,
      eqb_iff i j',
      inv.owned j k g,
      inv.owned j' k' g,
      inv.unique j j' k k' g,
    );
    entry = λ k g o. elim (Bool-cases (name == k)) [
      | inl y ↦
          inr (i, ground (arith, eqb_iff i i, lookup-insert name k next inflight, eq_iff name k))
      | inr n ↦
          Ends-update threads closed i (collecting name next) k g (λ b. ground arith)
            (inv.entry k g (ground (arith, lookup-insert name k next inflight)))
    ];
    awaited = λ j k g w.
        Ends-update threads closed i (collecting name next) k g (λ b. ground arith)
          (inv.awaited j k g (ground arith));
  }

  pub join :
      (name : String) (g : ℕ)
      → threads i ≡ entering name
      → lookup name inflight ≡ some g
      → Inv (update threads i (waiting name g)) inflight closed next
  join name g e found = record {
    owned = λ j k h o. ground (arith, eqb_iff i j, inv.owned j k h);
    unique = λ j j' k k' h o o'. ground (arith, eqb_iff i j, eqb_iff i j', inv.unique j j' k k' h);
    entry = λ k h o.
        Ends-update threads closed i (waiting name g) k h (λ b. ground arith) (inv.entry k h o);
    awaited = λ j k h w.
        Ends-update threads closed i (waiting name g) k h (λ b. ground arith)
          (elim (Bool-cases (eqb i j)) [
            | inl y ↦ inv.entry k h (ground arith)
            | inr n ↦ inv.awaited j k h (ground arith)
          ]);
  }

  -- The group's channel is closed: whoever waited for its builder has what it waits for.
  shut :
      (name : String) (g : ℕ)
      → threads i ≡ closing name g
      → (k : String) (h : ℕ) → Ends threads closed k h
      → Ends (update threads i (deleting name g)) (g ∷ closed) k h
  shut name g e k h (inl y) = inl (ground arith)
  shut name g e k h (inr (j, b)) = elim (Bool-cases (eqb h g)) [
    | inl y ↦ inl (ground arith)
    | inr n ↦ inr (j, ground (arith, eqb_iff i j, eqb_iff h g))
  ]

  pub close_group :
      (name : String) (g : ℕ)
      → threads i ≡ closing name g
      → Inv (update threads i (deleting name g)) inflight (g ∷ closed) next
  close_group name g e = record {
    owned = λ j k h o. ground (arith, eqb_iff i j, inv.owned j k h);
    unique = λ j j' k k' h o o'. ground (arith, eqb_iff i j, eqb_iff i j', inv.unique j j' k k' h);
    entry = λ k h o. shut name g e k h (inv.entry k h o);
    awaited = λ j k h w. shut name g e k h (inv.awaited j k h (ground arith));
  }

  pub remove :
      (name : String) (g : ℕ)
      → threads i ≡ deleting name g
      → Inv (update threads i idle) (erase name inflight) closed next
  remove name g e = record {
    owned = λ j k h o. ground (
      arith,
      eqb_iff i j,
      lookup-erase name k inflight,
      eq_iff name k,
      inv.owned j k h,
      inv.owned i name g,
      inv.unique i j name k g,
    );
    unique = λ j j' k k' h o o'. ground (arith, eqb_iff i j, eqb_iff i j', inv.unique j j' k k' h);
    entry = λ k h o.
        Ends-update threads closed i idle k h (λ b. ground arith)
          (inv.entry k h (ground (arith, lookup-erase name k inflight)));
    awaited = λ j k h w.
        Ends-update threads closed i idle k h (λ b. ground arith)
          (inv.awaited j k h (ground arith));
  }
