-- ===== src/Er.antt =====
-- pkg/er/er.go: the error values, and the results of the functions that return them.
pub mod Texts
use mathlib.Core.Path.{subst}
use goqtt.Base.{if◌then◌else◌, Bool, true, false, String, ◌≡◌, refl}

-- One constructor for each `errors.New` of the file; `errors.Is` compares these.
pub data Message : Type 0 where
  short_buffer invalid_conn_packet invalid_packet_type identifier_rejected : Message
  empty_client_id empty_and_clean_session_client_id client_id_length_exceed : Message
  invalid_chars_client_id unsupported_protocol_level unsupported_protocol_name : Message
  invalid_will_qos password_without_username malformed_username_field : Message
  malformed_password_field hash_failed user_not_found invalid_password : Message
  invalid_publish_packet publish_remaining_length_exceeded invalid_qos_level : Message
  wildcards_not_allowed_in_publish missing_packet_id invalid_packet_id : Message
  invalid_reserved_flag invalid_packet_length invalid_dup_flag empty_topic topic_too_long : Message
  payload_too_large null_character_in_topic invalid_utf8_topic control_character_in_topic : Message
  invalid_disconnect_packet invalid_subscribe_packet invalid_subscribe_flags : Message
  empty_topic_filter missing_qos_byte invalid_qos_reserved_bits no_topic_filters : Message
  invalid_utf8_topic_filter null_character_in_topic_filter : Message
  control_character_in_topic_filter multi_level_wildcard_not_last : Message
  multi_level_wildcard_not_alone single_level_wildcard_not_alone : Message
  invalid_unsubscribe_packet invalid_unsubscribe_flags invalid_pingreq_packet : Message
  invalid_pingreq_flags invalid_pingreq_length invalid_pingresp_packet : Message
  invalid_pingresp_flags invalid_pingresp_length remaining_length_exceeded : Message
  invalid_utf8_string empty_topic_level invalid_single_level_wildcard : Message
  invalid_multi_level_wildcard : Message

pub record Err : Type 0 where
  pub context : String
  pub message : Message

-- What a call returns: a value with a nil error, an error, or a run-time panic (an index or a
-- slice bound out of range, which Go raises and `handleConnection` recovers). `stuck` is no Go
-- value: a loop of the model ran out of fuel.
pub data Result {ℓ} (A : Type ℓ) : Type ℓ where
  ok : A → Result A
  err : Err → Result A
  panic : Result A
  stuck : Result A

infixl 5 ◌>>=◌
abbrev pub ◌>>=◌ {ℓ κ} : {A : Type ℓ} {B : Type κ} → Result A → (A → Result B) → Result B
◌>>=◌ call next = elim call [
  | ok value ↦ next value
  | err e ↦ err e
  | panic ↦ panic
  | stuck ↦ stuck
]

-- A check whose only outcome that counts is its error.
infixl 5 ◌>>◌
abbrev pub ◌>>◌ {ℓ} : {B : Type ℓ} → Result (Unit {0}) → Result B → Result B
check >> next = check >>= λ _. next

abbrev pub fail {ℓ} : {A : Type ℓ} → String → Message → Result A
fail context message = err (record { context = context; message = message })

-- `if test { return &er.Err{...} }`
unfoldable pub fail_if : Bool → String → Message → Result (Unit {0})
fail_if true context message = fail context message
fail_if false context message = ok tt

-- The call returns: its value has `P`, or there is an error. No panic, and enough fuel.
pub data Ensures {ℓ} {A : Type ℓ} (P : A → Type 0) : Result A → Type ℓ where
  done : {a : A} → P a → Ensures P (ok a)
  failed : {e : Err} → Ensures P (err e)

pub Ensures-bind {ℓ κ} :
    {A : Type ℓ} {B : Type κ} {P : B → Type 0} {Q : A → Type 0} (m : Result A) (f : A → Result B)
    → Ensures Q m
    → ((a : A) → m ≡ ok a → Q a → Ensures P (f a))
    → Ensures P (m >>= f)
Ensures-bind m f (done {a} q) h = h a refl q
Ensures-bind m f failed h = failed

pub Ensures-fail_if {ℓ} :
    {B : Type ℓ} {P : B → Type 0} (b : Bool) (context : String) (message : Message) (k : Result B)
    → (b ≡ false → Ensures P k)
    → Ensures P (fail_if b context message >> k)
unfolding fail_if
Ensures-fail_if true context message k h = failed
Ensures-fail_if false context message k h = h refl

ok-injective {ℓ} : {A : Type ℓ} {x y : A} → ok x ≡ ok y → x ≡ y
ok-injective e = cc

pub Ensures-ok {ℓ} :
    {A : Type ℓ} {P : A → Type 0} {r : Result A} (a : A) → Ensures P r → r ≡ ok a → P a
Ensures-ok {P} a (done p) e = subst P (ok-injective e) p
Ensures-ok a failed e = cc

pub Ensures-facts {ℓ} :
    {A : Type ℓ} {P Q : A → Type 0} (r : Result A)
    → Ensures Q r
    → ((a : A) → r ≡ ok a → P a)
    → Ensures P r
Ensures-facts r (done {a} q) h = done (h a refl)
Ensures-facts r failed h = failed

pub Ensures-weaken {ℓ} :
    {A : Type ℓ} {P Q : A → Type 0} {r : Result A}
    → Ensures Q r
    → ((a : A) → Q a → P a)
    → Ensures P r
Ensures-weaken (done {a} q) h = done (h a q)
Ensures-weaken failed h = failed

pub Ensures-if {ℓ} :
    {A : Type ℓ} {P : A → Type 0} {r s : Result A} (b : Bool)
    → (b ≡ true → Ensures P r)
    → (b ≡ false → Ensures P s)
    → Ensures P (if b then r else s)
Ensures-if true h k = h refl
Ensures-if false h k = k refl

-- A chain whose steps have known outcomes, one line for each step.
pub bind-step {ℓ κ} :
    {A : Type ℓ} {B : Type κ} (m : Result A) (f : A → Result B) {a : A} {r : Result B}
    → m ≡ ok a
    → (m ≡ ok a → f a ≡ r)
    → (m >>= f) ≡ r
bind-step m f e h = rw e (h e)

pub fail_if-step {ℓ} :
    {B : Type ℓ} (b : Bool) (context : String) (message : Message) (k : Result B) {r : Result B}
    → b ≡ false
    → (b ≡ false → k ≡ r)
    → (fail_if b context message >> k) ≡ r
unfolding fail_if
fail_if-step b context message k e h = rw e (h e)

pub fail_if-Ensures :
    (b : Bool) (context : String) (message : Message)
    → Ensures (λ _. Unit {0}) (fail_if b context message)
unfolding fail_if
fail_if-Ensures true context message = failed
fail_if-Ensures false context message = done tt

-- If the call returns a value, it has `P`.
pub data WhenOk {ℓ} {A : Type ℓ} (P : A → Type 0) : Result A → Type ℓ where
  given : {a : A} → P a → WhenOk P (ok a)
  not_given : {e : Err} → WhenOk P (err e)
  panicked : WhenOk P panic
  unfinished : WhenOk P stuck

pub WhenOk-bind {ℓ κ} :
    {A : Type ℓ} {B : Type κ} {P : B → Type 0} (m : Result A) (f : A → Result B)
    → ((a : A) → WhenOk P (f a))
    → WhenOk P (m >>= f)
WhenOk-bind (ok a) f h = h a
WhenOk-bind (err e) f h = not_given
WhenOk-bind panic f h = panicked
WhenOk-bind stuck f h = unfinished

pub WhenOk-if {ℓ} :
    {A : Type ℓ} {P : A → Type 0} {r s : Result A} (b : Bool)
    → (b ≡ true → WhenOk P r)
    → (b ≡ false → WhenOk P s)
    → WhenOk P (if b then r else s)
WhenOk-if true h k = h refl
WhenOk-if false h k = k refl

pub WhenOk-ok {ℓ} :
    {A : Type ℓ} {P : A → Type 0} {r : Result A} (a : A) → WhenOk P r → r ≡ ok a → P a
WhenOk-ok {P} a (given p) e = subst P (ok-injective e) p
WhenOk-ok a not_given e = cc
WhenOk-ok a panicked e = cc
WhenOk-ok a unfinished e = cc

-- The message of an error, as `errors.Is` finds it.
pub data FailsWith {ℓ} {A : Type ℓ} (message : Message) : Result A → Type ℓ where
  fails : {e : Err} → e.message ≡ message → FailsWith message (err e)
