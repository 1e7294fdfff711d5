-- ===== src/Graph/Chains.antt =====
-- Walks as lists of nodes.
use delaxis.Prelude.{
  ℕ, zero, suc, String, List, [], ◌∷◌, ◌++◌, drop, subst, ◌≡◌, refl, ◌⊎◌, inl, inr,
}
use delaxis.Graph.{Relation, Reaches, edge, step, IsChain, IsCycle}

module _ (E : Relation) where
  pub IsChain-tail : (x : String) (xs : List String) → IsChain E (x ∷ xs) → IsChain E xs
  IsChain-tail x [] h = tt
  IsChain-tail x (y ∷ ys) h = h.1

  pub IsChain-drop_append :
      (k : ℕ) (xs ys : List String) → IsChain E (xs ++ ys) → IsChain E (drop k xs ++ ys)
  IsChain-drop_append zero xs ys h = h
  IsChain-drop_append (suc k) [] ys h = h
  IsChain-drop_append (suc k) (x ∷ xs) ys h =
      IsChain-drop_append k xs ys (IsChain-tail x (xs ++ ys) h)

  -- A chain can be cut behind any of its nodes.
  pub IsChain-init : (xs ys : List String) → IsChain E (xs ++ ys) → IsChain E xs
  IsChain-init [] ys h = tt
  IsChain-init (x ∷ []) ys h = tt
  IsChain-init (x ∷ y ∷ xs) ys h = (h.0, IsChain-init (y ∷ xs) ys h.1)

  -- A chain that ends with `n` is continued by an edge from `n`.
  pub IsChain-snoc :
      (xs : List String) (n m : String)
      → IsChain E (xs ++ n ∷ [])
      → E n m
      → IsChain E ((xs ++ n ∷ []) ++ m ∷ [])
  IsChain-snoc [] n m h e = (e, tt)
  IsChain-snoc (x ∷ []) n m h e = (h.0, (e, tt))
  IsChain-snoc (x ∷ y ∷ xs) n m h e = (h.0, IsChain-snoc (y ∷ xs) n m h.1 e)

  Reaches-of_chain :
      (x y : String) (mid : List String) → IsChain E (x ∷ mid ++ y ∷ []) → Reaches E x y
  Reaches-of_chain x y [] h = edge h.0
  Reaches-of_chain x y (m ∷ mid) h = step h.0 (Reaches-of_chain m y mid h.1)

  -- A cycle that is written out refutes acyclicity.
  pub IsCycle→Reaches : {c : List String} → IsCycle E c → (x : String) × Reaches E x x
  IsCycle→Reaches h =
      (h.first, Reaches-of_chain h.first h.first h.inner (subst (IsChain E) h.written h.chain))

  pub Reaches-snoc : {x y z : String} → Reaches E x y → E y z → Reaches E x z
  Reaches-snoc (edge e) h = step e (edge h)
  Reaches-snoc (step e r) h = step e (Reaches-snoc r h)

  pub Reaches-first :
      {x y : String} → Reaches E x y → (m : String) × E x m × ((m ≡ y) ⊎ Reaches E m y)
  Reaches-first (edge {y = y} e) = (y, e, inl refl)
  Reaches-first (step {y = m} e r) = (m, e, inr r)

  -- What is closed under edges is closed under walks.
  pub Reaches-closed :
      (P : String → Type 0)
      → ((x y : String) → P x → E x y → P y)
      → {x y : String} → Reaches E x y
      → P x
      → P y
  Reaches-closed P closed (edge {x = x} {y = y} e) h = closed x y h e
  Reaches-closed P closed (step {x = x} {y = y} e r) h = Reaches-closed P closed r (closed x y h e)

module _ (E F : Relation) (sub : (x y : String) → E x y → F x y) where
  pub Reaches-mono : {x y : String} → Reaches E x y → Reaches F x y
  Reaches-mono (edge {x = x} {y = y} e) = edge (sub x y e)
  Reaches-mono (step {x = x} {y = y} e r) = step (sub x y e) (Reaches-mono r)

  pub IsChain-mono : (xs : List String) → IsChain E xs → IsChain F xs
  IsChain-mono [] h = tt
  IsChain-mono (x ∷ []) h = tt
  IsChain-mono (x ∷ y ∷ ys) h = (sub x y h.0, IsChain-mono (y ∷ ys) h.1)

  pub IsCycle-mono : (c : List String) → IsCycle E c → IsCycle F c
  IsCycle-mono c h = record {
    first = h.first;
    inner = h.inner;
    written = h.written;
    chain = IsChain-mono c h.chain;
  }
