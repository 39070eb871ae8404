-- ===== src/Dict/Nested/Laws.antt =====
-- The laws of the maps of maps.
use goqtt.Base.{
  ◌∙◌, sym, inr, inl, Bool-cases, ℕ, Bool, true, false, not, ◌&&◌, [], ◌∷◌, Option, none, some, ◌≡◌,
  refl, arith, if◌then◌else◌, Bytes, ◌==◌,
}
use goqtt.Dict.Laws.{IsMap, lookup-insert, lookup-delete, insert-IsMap, delete-IsMap}
use goqtt.Dict.{Key, Dict, lookup, insert, delete, bytes_key, nat_key}
use goqtt.Text.{bytes_eq, bytes_eq_iff}
use goqtt.Dict.Nested.{
  Nested, is_nil, or_empty, find_entry, add_entry, put_or_delete, remove_entry, keep_entry,
  update_values, update_inner, update_entries, and_then,
}

module _ {K V : Type 0} ⦃key : Key K⦄ where
  lookup-keep_entry :
      (j k : K) (o : Option V) (d : Dict K V)
      → lookup j d ≡ none
      → lookup k (keep_entry j o d) ≡ (if key.same j k then o else lookup k d)
  unfolding lookup
  lookup-keep_entry j k none d h = ground (arith, key.same_iff j k)
  lookup-keep_entry j k (some w) d h = refl

  lookup-update_values :
      (f : V → Option V) (k : K) (d : Dict K V)
      → IsMap d
      → lookup k (update_values f d) ≡ and_then f (lookup k d)
  unfolding lookup update_values
  lookup-update_values f k [] h = refl
  lookup-update_values f k ((j, v) ∷ d) h = ground (
    arith,
    lookup-keep_entry j k (f v) (update_values f d),
    lookup-update_values f k d h.1,
    lookup-update_values f j d h.1,
    h.0,
  )

  keep_entry-IsMap :
      (j : K) (o : Option V) (d : Dict K V) → lookup j d ≡ none → IsMap d → IsMap (keep_entry j o d)
  keep_entry-IsMap j none d e h = h
  keep_entry-IsMap j (some w) d e h = (e, h)

  update_values-IsMap : (f : V → Option V) (d : Dict K V) → IsMap d → IsMap (update_values f d)
  unfolding update_values
  update_values-IsMap f [] h = tt
  update_values-IsMap f ((j, v) ∷ d) h =
      keep_entry-IsMap j (f v) (update_values f d)
        (ground (arith, lookup-update_values f j d h.1, h.0)) (update_values-IsMap f d h.1)

module _ {V : Type 0} where
  -- Each map is a map, and no client has an empty one.
  abbrev pub IsNested : Nested V → Type 0
  IsNested d =
      IsMap d
      × ((c : Bytes) (inner : Dict ℕ V)
          → lookup c d ≡ some inner
          → IsMap inner × (is_nil inner ≡ false))

  pub find_entry-add_entry :
      (c : Bytes) (i : ℕ) (v : V) (d : Nested V) (b : Bytes) (j : ℕ)
      → find_entry b j (add_entry c i v d)
        ≡ (if bytes_eq c b && i == j then some v else find_entry b j d)
  unfolding find_entry add_entry
  find_entry-add_entry c i v d b j = ground (
    arith,
    lookup-insert c b (insert i v (or_empty (lookup c d))) d,
    lookup-insert i j v (or_empty (lookup c d)),
    bytes_eq_iff c b,
  )

  find_entry-put_or_delete :
      (c : Bytes) (inner : Dict ℕ V) (d : Nested V) (b : Bytes) (j : ℕ)
      → find_entry b j (put_or_delete c inner d)
        ≡ (if bytes_eq c b then lookup j inner else find_entry b j d)
  unfolding find_entry put_or_delete lookup
  find_entry-put_or_delete c [] d b j = ground (arith, lookup-delete c b d)
  find_entry-put_or_delete c (e ∷ inner) d b j = ground (arith, lookup-insert c b (e ∷ inner) d)

  insert-IsNested :
      (c : Bytes) (inner : Dict ℕ V) (d : Nested V)
      → IsMap inner
      → is_nil inner ≡ false
      → IsNested d
      → IsNested (insert c inner d)
  insert-IsNested c inner d m n h = (insert-IsMap c inner d h.0, go)
    where
      go :
          (b : Bytes) (k : Dict ℕ V)
          → lookup b (insert c inner d) ≡ some k
          → IsMap k × (is_nil k ≡ false)
      go b k e = elim (Bool-cases (bytes_eq c b)) [
        | inl t ↦ let q : k ≡ inner = ground (arith, lookup-insert c b inner d) in rw q (m, n)
        | inr t ↦ h.1 b k (ground (arith, lookup-insert c b inner d))
      ]

  put_or_delete-IsNested :
      (c : Bytes) (inner : Dict ℕ V) (d : Nested V)
      → IsMap inner
      → IsNested d
      → IsNested (put_or_delete c inner d)
  unfolding put_or_delete
  put_or_delete-IsNested c [] d m h =
      (delete-IsMap c d h.0, λ b inner e. h.1 b inner (ground (arith, lookup-delete c b d)))
  put_or_delete-IsNested c (x ∷ inner) d m h = insert-IsNested c (x ∷ inner) d m refl h

  insert-nonempty : (i : ℕ) (v : V) (d : Dict ℕ V) → is_nil (insert i v d) ≡ false
  unfolding insert
  insert-nonempty i v [] = refl
  insert-nonempty i v ((j, w) ∷ d) = ground arith

  or_empty-IsMap : (c : Bytes) (d : Nested V) → IsNested d → IsMap (or_empty (lookup c d))
  or_empty-IsMap c d h = go (lookup c d) refl
    where
      go : (o : Option (Dict ℕ V)) → lookup c d ≡ o → IsMap (or_empty o)
      go none e = tt
      go (some inner) e = (h.1 c inner e).0

  pub add_entry-IsNested :
      (c : Bytes) (i : ℕ) (v : V) (d : Nested V) → IsNested d → IsNested (add_entry c i v d)
  unfolding add_entry
  add_entry-IsNested c i v d h =
      insert-IsNested c (insert i v (or_empty (lookup c d))) d
        (insert-IsMap i v (or_empty (lookup c d)) (or_empty-IsMap c d h))
        (insert-nonempty i v (or_empty (lookup c d))) h

  pub remove_entry-IsNested :
      (c : Bytes) (i : ℕ) (d : Nested V) → IsNested d → IsNested (remove_entry c i d)
  unfolding remove_entry
  remove_entry-IsNested c i d h =
      put_or_delete-IsNested c (delete i (or_empty (lookup c d))) d
        (delete-IsMap i (or_empty (lookup c d)) (or_empty-IsMap c d h)) h

  pub find_entry-remove_entry :
      (c : Bytes) (i : ℕ) (d : Nested V) (b : Bytes) (j : ℕ)
      → find_entry b j (remove_entry c i d)
        ≡ (if bytes_eq c b && i == j then none else find_entry b j d)
  unfolding find_entry remove_entry put_or_delete
  find_entry-remove_entry c i d b j = ground (
    arith,
    find_entry-put_or_delete c (delete i (or_empty (lookup c d))) d b j,
    lookup-delete i j (or_empty (lookup c d)),
    bytes_eq_iff c b,
  )

  lookup-update_inner :
      (f : V → Option V) (i : ℕ) (inner : Dict ℕ V)
      → lookup i (or_empty (update_inner f inner)) ≡ lookup i (update_values f inner)
  unfolding update_inner lookup
  lookup-update_inner f i inner = go (update_values f inner) (not (is_nil inner))
    where
      go :
          (d : Dict ℕ V) (b : Bool)
          → lookup i (or_empty (if is_nil d && b then none else some d)) ≡ lookup i d
      go [] true = refl
      go [] false = refl
      go (e ∷ d) b = refl

  -- The entries after a loop over all of them.
  pub find_entry-update_entries :
      (f : V → Option V) (d : Nested V) (c : Bytes) (i : ℕ)
      → IsNested d
      → find_entry c i (update_entries f d) ≡ and_then f (find_entry c i d)
  unfolding find_entry update_entries lookup
  find_entry-update_entries f d c i h =
      rw (lookup-update_values (update_inner f) c d h.0) (go (lookup c d) refl)
    where
      go :
          (o : Option (Dict ℕ V))
          → lookup c d ≡ o
          → lookup i (or_empty (and_then (update_inner f) o)) ≡ and_then f (lookup i (or_empty o))
      go none e = refl
      go (some inner) e =
          lookup-update_inner f i inner ∙ lookup-update_values f i inner (h.1 c inner e).0

  update_inner-some :
      (f : V → Option V) (k inner : Dict ℕ V)
      → is_nil k ≡ false
      → update_inner f k ≡ some inner
      → (inner ≡ update_values f k) × (is_nil (update_values f k) ≡ false)
  unfolding update_inner
  update_inner-some f k inner n e = ground arith

  pub update_entries-IsNested :
      (f : V → Option V) (d : Nested V) → IsNested d → IsNested (update_entries f d)
  unfolding update_entries
  update_entries-IsNested f d h = (update_values-IsMap (update_inner f) d h.0, go)
    where
      of_inner :
          (o : Option (Dict ℕ V)) (c : Bytes) (inner : Dict ℕ V)
          → lookup c d ≡ o
          → and_then (update_inner f) o ≡ some inner
          → IsMap inner × (is_nil inner ≡ false)
      of_inner none c inner e g = absurd (ground arith)
      of_inner (some k) c inner e g =
          let (m, n) = h.1 c k e in
          let q : (inner ≡ update_values f k) × (is_nil (update_values f k) ≡ false) =
            update_inner-some f k inner n g in
          rw q.0 (update_values-IsMap f k m, q.1)

      go :
          (c : Bytes) (inner : Dict ℕ V)
          → lookup c (update_values (update_inner f) d) ≡ some inner
          → IsMap inner × (is_nil inner ≡ false)
      go c inner e =
          of_inner (lookup c d) c inner refl
            (sym (lookup-update_values (update_inner f) c d h.0) ∙ e)
