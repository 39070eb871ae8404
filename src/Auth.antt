-- ===== src/Auth.antt =====
-- internal/auth/auth.go and pkg/hash/hash.go. What the database and bcrypt answer are parameters.
use goqtt.Base.{Bool, Bytes, not, if◌then◌else◌}
use goqtt.Er.{Err, user_not_found, invalid_password}

-- `QueryRow("SELECT secret FROM users WHERE username = ?", username).Scan(&hash)`
pub data Row : Type 0 where
  secret : Bytes → Row
  no_rows : Row
  query_failed : Row

-- The error of `Authenticate`: nil, one of this program's, or the database's own.
pub data AuthError : Type 0 where
  no_error : AuthError
  refused : Err → AuthError
  database_error : AuthError

-- `compare` says whether `bcrypt.CompareHashAndPassword` answers with nil.
unfoldable pub verify_passwd : (Bytes → Bytes → Bool) → Bytes → Bytes → Bool
verify_passwd compare hash passwd = compare hash passwd

unfoldable pub authenticate : (Bytes → Row) → (Bytes → Bytes → Bool) → Bytes → Bytes → AuthError
unfolding verify_passwd
authenticate query compare username password = elim (query username) [
  | no_rows ↦ refused (record { context = "Auth"; message = user_not_found })
  | query_failed ↦ database_error
  | secret hash ↦
      if not (verify_passwd compare hash password)
      then refused (record { context = "Auth"; message = invalid_password })
      else no_error
]
