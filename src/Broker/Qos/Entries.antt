-- ===== src/Broker/Qos/Entries.antt =====
-- internal/broker/qos.go: the entries that a loop over a map of maps meets, each of them once.
use goqtt.Broker.Qos.{all_entries}
use goqtt.Dict.Laws.{In-append, same_self, IsMap, In}
use goqtt.Dict.Nested.Laws.{IsNested}
use goqtt.Dict.Nested.{find_entry, Nested}
use goqtt.Dict.{values, lookup, Dict, bytes_key, nat_key}
use mathlib.Core.Option.{some-injective}
use goqtt.Text.{bytes_eq, bytes_eq_iff}
use goqtt.Base.{
  ◌==◌, ==_iff, Bool-cases, map-append, ◌≡◌, ◌↔◌, Option, ◌++◌, map, ℕ, List, refl, none, some, ◌∷◌,
  [], Bytes, inl, inr, sym, ap, ◌∙◌, arith,
}

-- A value with its client and its packet identifier.
abbrev pub Entry : Type 0 → Type 0
Entry V = Bytes × ℕ × V

none_is_not_some : {A : Type 0} {v : A} → Path (Option A) none (some v) → ⊥
none_is_not_some e = cc

module _ {V : Type 0} where
  -- No client and identifier stand twice.
  abbrev pub AreDistinct : List (Entry V) → Type 0
  AreDistinct [] = Unit
  AreDistinct ((c, i, v) ∷ es) = ((w : V) → In (c, i, w) es → ⊥) × AreDistinct es

  -- The list has each entry of the map, once, and nothing else.
  pub record Enumerates (find : Bytes → ℕ → Option V) (es : List (Entry V)) : Type 0 where
    pub complete : (c : Bytes) (i : ℕ) (v : V) → In (c, i, v) es ↔ (find c i ≡ some v)
    pub distinct : AreDistinct es

  pub Enumerates-cong :
      {find find' : Bytes → ℕ → Option V} {es : List (Entry V)}
      → ((c : Bytes) (i : ℕ) → find c i ≡ find' c i)
      → Enumerates find es
      → Enumerates find' es
  Enumerates-cong same h = record {
    complete = λ c i v. (
      (λ m. sym (same c i) ∙ (h.complete c i v).0 m),
      (λ e. (h.complete c i v).1 (same c i ∙ e)),
    );
    distinct = h.distinct;
  }

  abbrev pub value_of : Entry V → V
  value_of e = e.2

  -- The entries of one client, and of all.
  unfoldable pub entries_below : Bytes → Dict ℕ V → List (Entry V)
  entries_below c [] = []
  entries_below c ((i, v) ∷ inner) = (c, i, v) ∷ entries_below c inner

  unfoldable pub entries : Nested V → List (Entry V)
  unfolding entries_below
  entries [] = []
  entries ((c, inner) ∷ d) = entries_below c inner ++ entries d

  map-entries_below :
      (c : Bytes) (inner : Dict ℕ V) → map value_of (entries_below c inner) ≡ values inner
  unfolding entries_below
  map-entries_below c [] = refl
  map-entries_below c ((i, v) ∷ inner) = ap (λ vs. v ∷ vs) (map-entries_below c inner)

  pub map-entries : (d : Nested V) → map value_of (entries d) ≡ all_entries d
  unfolding entries
  map-entries [] = refl
  map-entries ((c, inner) ∷ d) =
      map-append value_of (entries_below c inner) (entries d)
      ∙ rw (map-entries_below c inner, map-entries d) refl

  entry_path :
      {c d : Bytes} {i j : ℕ} {v w : V} → d ≡ c → i ≡ j → w ≡ v → Path (Entry V) (d, i, v) (c, j, w)
  entry_path e p q = rw (e, p, q) refl

  -- Whose entries they are.
  entries_below-In :
      (c d : Bytes) (i : ℕ) (v : V) (inner : Dict ℕ V)
      → IsMap inner
      → In (d, i, v) (entries_below c inner) ↔ ((d ≡ c) × (lookup i inner ≡ some v))
  unfolding entries_below lookup
  entries_below-In c d i v [] h = (λ m. absurd m, λ (_, e). cc)
  entries_below-In c d i v ((j, w) ∷ inner) h =
      let rest = entries_below-In c d i v inner h.1 in
      let absent = h.0 in
      (
        (λ m. elim m [
          | inl e ↦
              let own : d ≡ c = ap (λ x. x.0) e in
              let key : i ≡ j = ap (λ x. x.1) e in
              let same : v ≡ w = ap (λ x. x.2) e in
              (own, rw (key, (==_iff j j).1 refl) (ap some (sym same)))
          | inr there ↦ let (own, found) = rest.0 there in (own, ground (arith, ==_iff j i))
        ]),
        (λ (own, e). elim (Bool-cases (j == i)) [
          | inl here ↦ inl (
              entry_path own (sym ((==_iff j i).0 here))
                (some-injective _ _ (sym (rw here refl) ∙ e)))
          | inr other ↦ inr (rest.1 (own, sym (rw other refl) ∙ e))
        ]),
      )

  entries-In :
      (c : Bytes) (i : ℕ) (v : V) (d : Nested V)
      → IsMap d
      → ((b : Bytes) (inner : Dict ℕ V) → lookup b d ≡ some inner → IsMap inner)
      → In (c, i, v) (entries d) ↔ (find_entry c i d ≡ some v)
  unfolding entries lookup find_entry
  entries-In c i v [] h k = (λ m. absurd m, λ e. cc)
  entries-In c i v ((b, inner) ∷ d) h k =
      let absent = h.0 in
      let first = entries_below-In b c i v inner (k b inner (rw (same_self b) refl)) in
      let rest =
        entries-In c i v d h.1 (λ a x e. k a x (ground (arith, bytes_eq_iff b a, absent))) in
      (
        (λ m. elim ((In-append _ (entries_below b inner) (entries d)).0 m) [
          | inl here ↦ let (own, e) = first.0 here in rw (own, same_self b) e
          | inr there ↦ ground (arith, bytes_eq_iff b c, absent, rest.0 there)
        ]),
        (λ e.
            (In-append _ (entries_below b inner) (entries d)).1 (elim (Bool-cases (bytes_eq b c)) [
              | inl same ↦ inl (first.1 (sym ((bytes_eq_iff b c).0 same), rw same at e))
              | inr other ↦ inr (rest.1 (rw other at e))
            ])),
      )

  -- Nothing is met twice.
  entries_below-AreDistinct :
      (c : Bytes) (inner : Dict ℕ V) → IsMap inner → AreDistinct (entries_below c inner)
  unfolding entries_below
  entries_below-AreDistinct c [] h = tt
  entries_below-AreDistinct c ((i, v) ∷ inner) h = (
    (λ w m.
        let absent = h.0 in
        let (_, e) = (entries_below-In c c i w inner h.1).0 m in none_is_not_some (sym absent ∙ e)),
    entries_below-AreDistinct c inner h.1,
  )

  AreDistinct-append :
      (es fs : List (Entry V))
      → AreDistinct es
      → AreDistinct fs
      → ((c : Bytes) (i : ℕ) (v w : V) → In (c, i, v) es → In (c, i, w) fs → ⊥)
      → AreDistinct (es ++ fs)
  AreDistinct-append [] fs h k apart = k
  AreDistinct-append ((c, i, v) ∷ es) fs h k apart = (
    (λ w m. elim ((In-append _ es fs).0 m) [
      | inl here ↦ h.0 w here
      | inr there ↦ apart c i v w (inl refl) there
    ]),
    AreDistinct-append es fs h.1 k (λ d j x y m. apart d j x y (inr m)),
  )

  entries-AreDistinct :
      (d : Nested V)
      → IsMap d
      → ((b : Bytes) (inner : Dict ℕ V) → lookup b d ≡ some inner → IsMap inner)
      → AreDistinct (entries d)
  unfolding entries lookup find_entry
  entries-AreDistinct [] h k = tt
  entries-AreDistinct ((b, inner) ∷ d) h k =
      let absent = h.0 in
      let inside = k b inner (rw (same_self b) refl) in
      let below : (a : Bytes) (x : Dict ℕ V) → lookup a d ≡ some x → IsMap x =
        λ a x e. k a x (ground (arith, bytes_eq_iff b a, absent)) in
      AreDistinct-append (entries_below b inner) (entries d)
        (entries_below-AreDistinct b inner inside) (entries-AreDistinct d h.1 below)
        (λ c i v w m m'.
          let own = ((entries_below-In b c i v inner inside).0 m).0 in
          let found = (entries-In c i w d h.1 below).0 m' in
          none_is_not_some (rw (own, absent) at found))

  -- The loops over the map of maps meet what stands in it.
  pub Enumerates-entries :
      (d : Nested V) → IsNested d → Enumerates (λ c i. find_entry c i d) (entries d)
  Enumerates-entries d h =
      let inside : (c : Bytes) (inner : Dict ℕ V) → lookup c d ≡ some inner → IsMap inner =
        λ c inner e. (h.1 c inner e).0 in
      record {
        complete = λ c i v. entries-In c i v d h.0 inside;
        distinct = entries-AreDistinct d h.0 inside;
      }
