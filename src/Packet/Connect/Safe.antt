-- ===== src/Packet/Connect/Safe.antt =====
-- `ConnectPacket.Parse` on any bytes: it panics on certain packets of 12 and 13 bytes, and
-- returns on all others; what it accepts is well formed.
use goqtt.Base.{
  ap, Bool-cases, ℕ, ◌+◌, ◌≤◌, ◌<◌, Bool, true, false, ◌&&◌, [], ◌∷◌, ◌≡◌, ◌≢◌, ◌⊎◌, inl, inr, refl,
  arith, ltb, ◌==◌, length, All, Bytes, IsByte, IsU16, Option, none, some, bit_and, String,
}
use goqtt.Er.{Message, panic, Ensures, done, failed, Ensures-bind, Ensures-fail_if, fail_if}
use goqtt.Packet.Connect.{
  ConnectPacket, validate_client_id, settle_client_id, mqtt, connect_protocol, connect_flags,
  connect_client_id, read_field, read_optional, parse_connect, decode_flags,
  matches_allowed_pattern,
}
use goqtt.Packet.Types.{connect_type}
use goqtt.Slice.{index, slice, uint16}
use goqtt.Slice.Safe.{index-Ensures, slice-Ensures, read_uint16-Ensures}
use goqtt.Text.{bytes_eq, bytes_eq_iff}

-- A field is there exactly if its flag is set.
abbrev pub Flagged : Bool → Option Bytes → Type 0
Flagged flag none = flag ≡ false
Flagged flag (some field) = (flag ≡ true) × IsU16 (length field)

-- One to 23 of the characters that the source allows.
abbrev pub IsClientId : Bytes → Type 0
IsClientId s = (1 ≤ length s) × (length s ≤ 23) × (matches_allowed_pattern s ≡ true)

pub record IsValid (new_uuid : Bytes) (p : ConnectPacket) : Type 0 where
  pub name : p.protocol_name ≡ mqtt
  pub level : p.protocol_level ≡ 4
  pub will_qos_le : p.will_flag ≡ true → p.will_qos ≤ 2
  pub keep_alive_u16 : IsU16 p.keep_alive
  pub client : IsClientId p.client_id ⊎ ((p.client_id ≡ new_uuid) × (p.clean_session ≡ true))
  pub topic_flagged : Flagged p.will_flag p.will_topic
  pub message_flagged : Flagged p.will_flag p.will_message
  pub username_flagged : Flagged p.username_flag p.username
  pub password_flagged : Flagged p.password_flag p.password
  pub password_needs_username : p.password_flag ≡ true → p.username_flag ≡ true

abbrev Settled : Bytes → Bool → Bytes → Type 0
Settled new_uuid clean_session id = IsClientId id ⊎ ((id ≡ new_uuid) × (clean_session ≡ true))

settle_client_id-Ensures :
    (new_uuid client_id : Bytes) (clean_session : Bool)
    → Ensures
        (Settled new_uuid clean_session)
        (settle_client_id new_uuid client_id (validate_client_id client_id clean_session))
unfolding settle_client_id validate_client_id fail_if
settle_client_id-Ensures new_uuid [] true = done (inr (refl, refl))
settle_client_id-Ensures new_uuid [] false = failed
settle_client_id-Ensures new_uuid (b ∷ bs) clean_session =
    let nonzero : (length (b ∷ bs) == 0) ≡ false = ground arith in
    elim (Bool-cases (ltb 23 (length (b ∷ bs)))) [
      | inl long ↦ rw (nonzero, long) failed
      | inr short ↦ elim (Bool-cases (matches_allowed_pattern (b ∷ bs))) [
        | inl allowed ↦
            rw (nonzero, short, allowed) (done (inl (omega arith, ground arith, allowed)))
        | inr other ↦ rw (nonzero, short, other) failed
      ]
    ]

module _ (raw : Bytes) (bytes : All IsByte raw) where
  connect_protocol-Ensures :
      Ensures (λ h. (h.0 ≡ mqtt) × (h.1 ≡ 4) × (h.2 ≡ 9)) (connect_protocol raw)
  unfolding connect_protocol
  connect_protocol-Ensures = Ensures-fail_if _ _ _ _ λ long.
      Ensures-bind _ _ (index-Ensures raw 0 bytes (ground arith)) λ b0 _ _.
        Ensures-fail_if _ _ _ _ λ _. Ensures-fail_if _ _ _ _ λ _.
          Ensures-bind _ _ (read_uint16-Ensures raw 2 bytes (ground arith)) λ n _ word.
            Ensures-fail_if _ _ _ _ λ fits.
              Ensures-bind _ _ (slice-Ensures raw 4 (4 + n) bytes (omega arith) (ground arith))
                λ name _ t. Ensures-fail_if _ _ _ _ λ same. Ensures-fail_if _ _ _ _ λ room.
                  Ensures-bind _ _ (index-Ensures raw (4 + n) bytes (ground arith)) λ level _ _.
                    Ensures-fail_if _ _ _ _ λ four.
                      let is_mqtt : name ≡ mqtt = (bytes_eq_iff name mqtt).0 (ground arith) in
                      done (is_mqtt, ground arith, omega (arith, ap length is_mqtt, t.1))

  connect_flags-Ensures :
      (offset : ℕ)
      → Ensures
          (λ h.
            (h.0.will_flag ≡ true → h.0.will_qos ≤ 2)
            × IsU16 h.1
            × (h.2 ≡ offset + 3)
            × (offset + 3 ≤ length raw))
          (connect_flags raw offset)
  unfolding connect_flags
  connect_flags-Ensures offset = Ensures-fail_if _ _ _ _ λ room.
      Ensures-bind _ _ (index-Ensures raw offset bytes (ground arith)) λ b _ _.
        Ensures-fail_if _ _ _ _ λ level. Ensures-fail_if _ _ _ _ λ two.
          Ensures-bind _ _ (read_uint16-Ensures raw (offset + 1) bytes (ground arith))
            λ n _ word. done (λ set. ground arith, word, omega arith, ground arith)

  -- Where the two bytes of the length are there.
  connect_client_id-Ensures :
      (new_uuid : Bytes) (clean_session : Bool) (offset : ℕ)
      → offset + 2 ≤ length raw
      → Ensures
          (λ c. Settled new_uuid clean_session c.0)
          (connect_client_id new_uuid raw clean_session offset)
  unfolding connect_client_id
  connect_client_id-Ensures new_uuid clean_session offset room =
      Ensures-bind _ _ (read_uint16-Ensures raw offset bytes room) λ n _ word.
        Ensures-fail_if _ _ _ _ λ fits.
          Ensures-bind _ _
            (slice-Ensures raw (offset + 2) (offset + 2 + n) bytes (omega arith) (ground arith))
            λ client_id _ _.
              Ensures-bind _ _ (settle_client_id-Ensures new_uuid client_id clean_session)
                λ settled _ is_settled. done is_settled

  read_field-Ensures :
      (no_length too_short : String) (message : Message) (offset : ℕ)
      → Ensures (λ r. IsU16 (length r.0)) (read_field no_length too_short message raw offset)
  unfolding read_field
  read_field-Ensures no_length too_short message offset = Ensures-fail_if _ _ _ _ λ room.
      Ensures-bind _ _ (read_uint16-Ensures raw offset bytes (ground arith)) λ n _ word.
        Ensures-fail_if _ _ _ _ λ fits.
          Ensures-bind _ _
            (slice-Ensures raw (offset + 2) (offset + 2 + n) bytes (omega arith) (ground arith))
            λ field _ t. done (omega (arith, t.1))

  read_optional-Ensures :
      (flag : Bool) (no_length too_short : String) (message : Message) (offset : ℕ)
      → Ensures (λ r. Flagged flag r.0) (read_optional flag no_length too_short message raw offset)
  unfolding read_optional
  read_optional-Ensures false no_length too_short message offset = done refl
  read_optional-Ensures true no_length too_short message offset =
      Ensures-bind _ _ (read_field-Ensures no_length too_short message offset)
        λ r _ q. done (refl, q)

  -- On any bytes but 12 or 13 of them the parser returns, with no panic; a packet that it accepts
  -- names MQTT at level 4, has a Will QoS of at most 2 with a Will, a client identifier of 1 to 23
  -- of the allowed characters or else, in a clean session, the new UUID, each optional field
  -- exactly if its flag is set, and no password without a username.
  pub parse_connect-Ensures :
      (new_uuid : Bytes)
      → length raw ≢ 12
      → length raw ≢ 13
      → Ensures (λ p. IsValid new_uuid p × (p.raw ≡ raw)) (parse_connect new_uuid raw)
  unfolding parse_connect
  parse_connect-Ensures new_uuid not_12 not_13 = Ensures-bind _ _ connect_protocol-Ensures λ h _ hp.
      Ensures-bind _ _ (connect_flags-Ensures h.2) λ f _ fp.
        Ensures-bind _ _
          (connect_client_id-Ensures new_uuid f.0.clean_session f.2 (omega (arith, hp, fp)))
          λ c _ settled.
            Ensures-bind _ _ (read_optional-Ensures f.0.will_flag _ _ _ c.1) λ t _ topic.
              Ensures-bind _ _ (read_optional-Ensures f.0.will_flag _ _ _ t.1) λ m _ will.
                Ensures-fail_if _ _ _ _ λ both.
                  Ensures-bind _ _ (read_optional-Ensures f.0.username_flag _ _ _ m.1)
                    λ u _ username.
                      Ensures-bind _ _ (read_optional-Ensures f.0.password_flag _ _ _ u.1)
                        λ w _ password. done (
                          record {
                            name = hp.0;
                            level = hp.1;
                            will_qos_le = fp.0;
                            keep_alive_u16 = fp.1;
                            client = settled;
                            topic_flagged = topic;
                            message_flagged = will;
                            username_flagged = username;
                            password_flagged = password;
                            password_needs_username = λ set. ground arith;
                          },
                          refl,
                        )

-- A CONNECT of protocol MQTT, level 4, that ends behind the keep-alive time or one byte later.
abbrev pub short_connect : ℕ → ℕ → ℕ → ℕ → ℕ → Bytes → Bytes
short_connect b0 size flags high low tail =
    b0 ∷ size ∷ 0 ∷ 4 ∷ b'M' ∷ b'Q' ∷ b'T' ∷ b'T' ∷ 4 ∷ flags ∷ high ∷ low ∷ tail

-- On such a packet with a lawful Will QoS the parser panics, whatever its other flags and its
-- remaining length: it reads the length of the client identifier past the end of the buffer.
pub parse_connect-panic :
    (new_uuid tail : Bytes) (b0 size flags high low : ℕ)
    → bit_and b0 0xF0 ≡ connect_type
    → ((decode_flags flags).will_flag && ltb 2 (decode_flags flags).will_qos) ≡ false
    → length tail < 2
    → parse_connect new_uuid (short_connect b0 size flags high low tail) ≡ panic
unfolding parse_connect connect_protocol connect_flags connect_client_id index slice uint16 bytes_eq
    fail_if
parse_connect-panic new_uuid [] b0 size flags high low kind lawful short = rw (kind, lawful)
parse_connect-panic new_uuid (x ∷ []) b0 size flags high low kind lawful short = rw (kind, lawful)
parse_connect-panic new_uuid (x ∷ y ∷ tail) b0 size flags high low kind lawful short =
    absurd (omega arith)
