-- ===== src/Text/Split.antt =====
-- `strings.Split(s, "/")`.
use goqtt.Base.{[], ◌∷◌, ◌++◌, ◌≡◌, refl, List, ◌==◌, if◌then◌else◌, Bytes, append_assoc, ap}

-- `cur` stands in front of the first part.
abbrev pub put_front : Bytes → List Bytes → List Bytes
put_front cur [] = cur ∷ []
put_front cur (x ∷ xs) = (cur ++ x) ∷ xs

unfoldable pub split : Bytes → List Bytes
split [] = [] ∷ []
split (b ∷ bs) = if b == b'/' then [] ∷ split bs else put_front (b ∷ []) (split bs)

pub put_front-append :
    (a b : Bytes) (xs : List Bytes) → put_front (a ++ b) xs ≡ put_front a (put_front b xs)
put_front-append a b [] = refl
put_front-append a b (x ∷ xs) = ap (λ (y : Bytes). y ∷ xs) (append_assoc a b x)
