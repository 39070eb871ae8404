-- ===== src/Dict.antt =====
-- Go's maps, as association lists with one entry for each key. A loop over a map takes the entries
-- in an order that Go leaves open; the model takes them in the order of the list.
pub mod Laws
pub mod Nested
use goqtt.Base.{
  ℕ, Bool, List, [], ◌∷◌, Option, none, some, ◌≡◌, ◌↔◌, if◌then◌else◌, map, Bytes, ◌==◌, ==_iff,
  String,
}
use goqtt.Text.{bytes_eq, bytes_eq_iff}

-- The equality of keys.
pub record Key (K : Type 0) : Type 0 where
  pub same : K → K → Bool
  pub same_iff : (a b : K) → (same a b ≡ Bool.true) ↔ (a ≡ b)

instance abbrev pub bytes_key : Key Bytes
bytes_key = record { same = bytes_eq; same_iff = bytes_eq_iff }

instance abbrev pub nat_key : Key ℕ
nat_key = record { same = ◌==◌; same_iff = ==_iff }

abbrev pub Dict : Type 0 → Type 0 → Type 0
Dict K V = List (K × V)

module _ {K V : Type 0} ⦃key : Key K⦄ where
  unfoldable pub lookup : K → Dict K V → Option V
  lookup k [] = none
  lookup k ((j, v) ∷ d) = if key.same j k then some v else lookup k d

  -- `d[k] = v`
  unfoldable pub insert : K → V → Dict K V → Dict K V
  insert k v [] = (k, v) ∷ []
  insert k v ((j, w) ∷ d) = if key.same j k then (k, v) ∷ d else (j, w) ∷ insert k v d

  -- `delete(d, k)`
  unfoldable pub delete : K → Dict K V → Dict K V
  delete k [] = []
  delete k ((j, w) ∷ d) = let rest = delete k d in if key.same j k then rest else (j, w) ∷ rest

abbrev pub values : {K V : Type 0} → Dict K V → List V
values d = map (λ e. e.1) d
