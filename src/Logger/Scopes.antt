-- ===== src/Logger/Scopes.antt =====
-- The scopes that WithAttrs and WithGroup add to a handler, and how the attributes behind them read.
use goqtt.Logger.Slog.{
  group, attributes, Scope, Attr, Handler, handler_with_attrs, handler_with_group, qualified,
}
use goqtt.Base.{append-nil, ◌≡◌, map, ◌++◌, List, refl, ◌∷◌, [], Bytes}

-- A group without a name is none.
unfoldable pub in_group : List Bytes → Bytes → List Bytes
in_group groups [] = groups
in_group groups (c ∷ name) = groups ++ ((c ∷ name) ∷ [])

abbrev pub within : List Bytes → List Attr → List (List Bytes × Attr)
within groups attrs = map (λ a. (groups, a)) attrs

unfoldable pub group_scopes : Bytes → List Scope
group_scopes [] = []
group_scopes (c ∷ name) = group (c ∷ name) ∷ []

unfoldable pub attr_scopes : List Attr → List Scope
attr_scopes [] = []
attr_scopes (a ∷ attrs) = attributes (a ∷ attrs) ∷ []

abbrev pub with_scopes : List Scope → Handler → Handler
with_scopes scopes h = record h { scopes = h.scopes ++ scopes }

pub handler_with_attrs_lem :
    (attrs : List Attr) (h : Handler)
    → handler_with_attrs attrs h ≡ with_scopes (attr_scopes attrs) h
unfolding handler_with_attrs attr_scopes
handler_with_attrs_lem [] h = rw (append-nil h.scopes)
handler_with_attrs_lem (a ∷ attrs) h = refl

pub handler_with_group_lem :
    (name : Bytes) (h : Handler) → handler_with_group name h ≡ with_scopes (group_scopes name) h
unfolding handler_with_group group_scopes
handler_with_group_lem [] h = rw (append-nil h.scopes)
handler_with_group_lem (c ∷ name) h = refl

-- What the scopes of a derivation do to the reading of those behind it.
pub qualified-attr_scopes :
    (more : List Attr) (groups : List Bytes) (scopes : List Scope) (attrs : List Attr)
    → qualified groups (attr_scopes more ++ scopes) attrs
      ≡ within groups more ++ qualified groups scopes attrs
unfolding qualified attr_scopes
qualified-attr_scopes [] groups scopes attrs = refl
qualified-attr_scopes (a ∷ more) groups scopes attrs = refl

pub qualified-group_scopes :
    (name : Bytes) (groups : List Bytes) (scopes : List Scope) (attrs : List Attr)
    → qualified groups (group_scopes name ++ scopes) attrs
      ≡ qualified (in_group groups name) scopes attrs
unfolding qualified group_scopes in_group
qualified-group_scopes [] groups scopes attrs = refl
qualified-group_scopes (c ∷ name) groups scopes attrs = refl
