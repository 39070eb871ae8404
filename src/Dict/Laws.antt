-- ===== src/Dict/Laws.antt =====
-- The laws of the maps.
use goqtt.Base.{
  ◌+◌, length, ◌++◌, ◌↔◌, true, List, [], ◌∷◌, none, some, ◌≡◌, ◌⊎◌, inl, inr, refl, arith,
  if◌then◌else◌,
}
use goqtt.Dict.{Key, Dict, lookup, insert, delete, values}

-- The value occurs in the list.
abbrev pub In : {A : Type 0} → A → List A → Type 0
In a [] = ⊥
In a (x ∷ xs) = (a ≡ x) ⊎ In a xs

pub In-append : {A : Type 0} (a : A) (xs ys : List A) → In a (xs ++ ys) ↔ (In a xs ⊎ In a ys)
In-append a [] ys = grind arith
In-append a (x ∷ xs) ys = grind (arith, In-append a xs ys)

pub same_self : {K : Type 0} ⦃key : Key K⦄ (k : K) → key.same k k ≡ true
same_self ⦃key⦄ k = (key.same_iff k k).1 refl

module _ {K V : Type 0} ⦃key : Key K⦄ where
  pub lookup-insert :
      (k j : K) (v : V) (d : Dict K V)
      → lookup j (insert k v d) ≡ (if key.same k j then some v else lookup j d)
  unfolding lookup insert
  lookup-insert k j v [] = refl
  lookup-insert k j v ((i, w) ∷ d) =
      ground (arith, key.same_iff k j, key.same_iff i k, key.same_iff i j, lookup-insert k j v d)

  pub lookup-delete :
      (k j : K) (d : Dict K V) → lookup j (delete k d) ≡ (if key.same k j then none else lookup j d)
  unfolding lookup delete
  lookup-delete k j [] = ground arith
  lookup-delete k j ((i, w) ∷ d) =
      ground (arith, key.same_iff k j, key.same_iff i k, key.same_iff i j, lookup-delete k j d)

  -- No key stands twice.
  abbrev pub IsMap : Dict K V → Type 0
  IsMap [] = Unit
  IsMap ((k, v) ∷ d) = (lookup k d ≡ none) × IsMap d

  pub insert-IsMap : (k : K) (v : V) (d : Dict K V) → IsMap d → IsMap (insert k v d)
  unfolding insert lookup
  insert-IsMap k v [] h = (refl, tt)
  insert-IsMap k v ((j, w) ∷ d) h =
      ground (arith, key.same_iff j k, key.same_iff k j, insert-IsMap k v d, lookup-insert k j v d)

  pub delete-IsMap : (k : K) (d : Dict K V) → IsMap d → IsMap (delete k d)
  unfolding delete
  delete-IsMap k [] h = tt
  delete-IsMap k ((j, w) ∷ d) h = ground (arith, delete-IsMap k d, lookup-delete k j d)

  pub In-values : (k : K) (v : V) (d : Dict K V) → lookup k d ≡ some v → In v (values d)
  unfolding lookup
  In-values k v [] e = cc
  In-values k v ((j, w) ∷ d) e = ground (arith, In-values k v d)

  -- Every value of a map has its key.
  pub lookup-In :
      (v : V) (d : Dict K V) → IsMap d → In v (values d) → (k : K) × (lookup k d ≡ some v)
  unfolding lookup
  lookup-In v [] h m = absurd m
  lookup-In v ((j, w) ∷ d) h (inl e) = (j, rw (same_self j, e))
  lookup-In v ((j, w) ∷ d) h (inr m) =
      let (k, e) = lookup-In v d h.1 m in (k, ground (arith, key.same_iff j k))

  -- The number of keys.
  pub length-insert_new :
      (k : K) (v : V) (d : Dict K V) → lookup k d ≡ none → length (insert k v d) ≡ length d + 1
  unfolding lookup insert
  length-insert_new k v [] e = refl
  length-insert_new k v ((j, w) ∷ d) e = ground (arith, length-insert_new k v d)

  pub length-insert_old :
      (k : K) (v w : V) (d : Dict K V) → lookup k d ≡ some w → length (insert k v d) ≡ length d
  unfolding lookup insert
  length-insert_old k v w [] e = cc
  length-insert_old k v w ((j, x) ∷ d) e = ground (arith, length-insert_old k v w d)

  pub length-delete_missing :
      (k : K) (d : Dict K V) → lookup k d ≡ none → length (delete k d) ≡ length d
  unfolding lookup delete
  length-delete_missing k [] e = refl
  length-delete_missing k ((j, w) ∷ d) e = ground (arith, length-delete_missing k d)

  pub length-delete_found :
      (k : K) (v : V) (d : Dict K V)
      → IsMap d
      → lookup k d ≡ some v
      → length (delete k d) + 1 ≡ length d
  unfolding lookup delete
  length-delete_found k v [] h e = cc
  length-delete_found k v ((j, w) ∷ d) h e =
      ground (arith, key.same_iff j k, length-delete_missing k d, length-delete_found k v d)
