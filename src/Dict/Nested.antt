-- ===== src/Dict/Nested.antt =====
-- Go's maps of maps, `map[string]map[uint16]V`: one map of numbered entries for each client.
pub mod Laws
use goqtt.Base.{
  ◌∙◌, sym, inr, inl, Bool-cases, ℕ, Bool, true, false, not, ◌&&◌, List, [], ◌∷◌, Option, none,
  some, ◌≡◌, ◌≢◌, refl, arith, if◌then◌else◌, Bytes, ◌==◌, length, String,
}
use goqtt.Dict.Laws.{IsMap, lookup-insert, lookup-delete, insert-IsMap, delete-IsMap}
use goqtt.Dict.{Key, Dict, lookup, insert, delete, bytes_key, nat_key}
use goqtt.Text.{bytes_eq, bytes_eq_iff}

abbrev pub Nested : Type 0 → Type 0
Nested V = Dict Bytes (Dict ℕ V)

abbrev pub is_nil : {A : Type 0} → List A → Bool
is_nil [] = true
is_nil (_ ∷ _) = false

abbrev pub or_empty : {A : Type 0} → Option (List A) → List A
or_empty none = []
or_empty (some d) = d

module _ {V : Type 0} where
  -- `if inner, exists := d[c]; exists { if v, exists := inner[i]; exists { … } }`
  unfoldable pub find_entry : Bytes → ℕ → Nested V → Option V
  find_entry c i d = lookup i (or_empty (lookup c d))

  -- `if d[c] == nil { d[c] = make(…) }`, then `d[c][i] = v`.
  unfoldable pub add_entry : Bytes → ℕ → V → Nested V → Nested V
  add_entry c i v d = insert c (insert i v (or_empty (lookup c d))) d

  unfoldable pub put_or_delete : Bytes → Dict ℕ V → Nested V → Nested V
  put_or_delete c inner d = if is_nil inner then delete c d else insert c inner d

  -- `delete(inner, i)`, and `delete(d, c)` if `inner` is empty now.
  unfoldable pub remove_entry : Bytes → ℕ → Nested V → Nested V
  unfolding put_or_delete
  remove_entry c i d = put_or_delete c (delete i (or_empty (lookup c d))) d

abbrev pub keep_entry : {K V : Type 0} → K → Option V → Dict K V → Dict K V
keep_entry k none d = d
keep_entry k (some v) d = (k, v) ∷ d

-- A loop over a map that changes the values, and deletes those that come to `none`.
unfoldable pub update_values : {K V : Type 0} → (V → Option V) → Dict K V → Dict K V
update_values f [] = []
update_values f ((k, v) ∷ d) = keep_entry k (f v) (update_values f d)

-- What the loop leaves of the entries of a client: a map that it empties is deleted too.
unfoldable pub update_inner : {V : Type 0} → (V → Option V) → Dict ℕ V → Option (Dict ℕ V)
unfolding update_values
update_inner f inner =
    if is_nil (update_values f inner) && not (is_nil inner)
    then none
    else some (update_values f inner)

unfoldable pub update_entries : {V : Type 0} → (V → Option V) → Nested V → Nested V
unfolding update_values update_inner
update_entries f d = update_values (update_inner f) d

abbrev pub and_then : {A B : Type 0} → (A → Option B) → Option A → Option B
and_then f none = none
and_then f (some a) = f a
