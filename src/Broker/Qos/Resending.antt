-- ===== src/Broker/Qos/Resending.antt =====
-- internal/broker/qos.go, `processRetries`: which packets a round of retries writes.
use goqtt.Broker.Qos.History.{IsManager}
use goqtt.Packet.Publish.{encode_publish}
use goqtt.Broker.Session.{Session, Write}
use goqtt.Broker.Qos.{
  is_due, retry_write, QosManager, process_retries, resent_packet, PendingMessage, retry_message,
  all_entries,
}
use goqtt.Broker.Qos.Entries.{Entry, Enumerates, Enumerates-entries, entries, map-entries, value_of}
use goqtt.Dict.Laws.{In}
use goqtt.Dict.Nested.{find_entry}
use goqtt.Base.{
  ltb, ◌&&◌, Bool-cases, ◌⊎◌, ◌<◌, ◌-◌, ◌≤◌, Option-cases, ℕ, ◌↔◌, ◌++◌, map-append, concat, map,
  List, ◌≡◌, refl, arith, some, ◌∷◌, [], inl, inr,
}
use goqtt.Dict.{bytes_key, nat_key}

-- The write of a message that is sent again: its delay is over, it has a retry left, and its session
-- has a connection.
pub record IsResent (now : ℕ) (msg : PendingMessage) (write : Write) : Type 0 where
  pub due : msg.retry_delay ≤ now - msg.timestamp
  pub left : msg.retry_count < msg.max_retries
  pub session : Session
  pub conn : ℕ
  pub has_session : msg.session ≡ some session
  pub online : session.conn ≡ some conn
  pub written : write ≡ (conn, encode_publish (resent_packet msg))

retry_message_lem :
    (msg : PendingMessage) (write : Write)
    → In write (retry_message msg) ↔ (
        (session : Session) × (conn : ℕ) × (msg.session ≡ some session)
        × (session.conn ≡ some conn)
        × (write ≡ (conn, encode_publish (resent_packet msg))))
unfolding retry_message
retry_message_lem msg write = (to, from)
  where
    to :
        In write (retry_message msg)
        → (session : Session) × (conn : ℕ) × (msg.session ≡ some session)
          × (session.conn ≡ some conn)
          × (write ≡ (conn, encode_publish (resent_packet msg)))
    to m = elim (Option-cases msg.session) [
      | inl e ↦ absurd (rw (retry_message, e) at m)
      | inr (session, e) ↦ elim (Option-cases session.conn) [
        | inl q ↦ absurd (rw (retry_message, e, q) at m)
        | inr (conn, q) ↦ (
          session,
          conn,
          e,
          q,
          elim (rw (retry_message, e, q) at m) [ inl r ↦ r | inr none_left ↦ absurd none_left ],
        )
      ]
    ]

    from :
        (session : Session) × (conn : ℕ) × (msg.session ≡ some session)
          × (session.conn ≡ some conn)
          × (write ≡ (conn, encode_publish (resent_packet msg)))
        → In write (retry_message msg)
    from (session, conn, e, q, r) = rw (retry_message, e, q) (inl r)

retry_write_iff :
    (now : ℕ) (msg : PendingMessage) (write : Write)
    → In write (retry_write now msg) ↔ IsResent now msg write
unfolding retry_write
retry_write_iff now msg write =
    elim (Bool-cases
      (is_due now msg.timestamp msg.retry_delay && ltb msg.retry_count msg.max_retries)) [
        | inl due ↦ (
          (λ m.
              let (session, conn, e, q, r) =
                (retry_message_lem msg write).0 (rw (retry_write, due) at m) in
              record {
                due = ground arith;
                left = ground arith;
                session = session;
                conn = conn;
                has_session = e;
                online = q;
                written = r;
              }),
          (λ h.
              rw (retry_write, due)
                ((retry_message_lem msg write).1
                  (h.session, h.conn, h.has_session, h.online, h.written))),
        )
        | inr other ↦ (
          (λ m. absurd (rw (retry_write, other) at m)),
          (λ h. let due = h.due in let left = h.left in absurd (ground arith)),
        )
      ]

-- At most one packet is written for a message.
retry_write-length :
    (now : ℕ) (msg : PendingMessage)
    → (retry_write now msg ≡ []) ⊎ ((write : Write) × (retry_write now msg ≡ write ∷ []))
unfolding retry_write retry_message
retry_write-length now msg =
    elim (Bool-cases
      (is_due now msg.timestamp msg.retry_delay && ltb msg.retry_count msg.max_retries)) [
        | inr other ↦ inl (rw other refl)
        | inl due ↦ elim (Option-cases msg.session) [
          | inl e ↦ inl (rw (due, e) refl)
          | inr (session, e) ↦ elim (Option-cases session.conn) [
            | inl q ↦ inl (rw (due, e, q) refl)
            | inr (conn, q) ↦ inr ((conn, encode_publish (resent_packet msg)), rw (due, e, q) refl)
          ]
        ]
      ]

-- The packets that are written again for pending messages, one after the other: one packet for each
-- message that is to be sent again, and none for another.
pub data Resends (now : ℕ) : List PendingMessage → List Write → Type 0 where
  no_more : Resends now [] []
  waits :
      {msg : PendingMessage} {msgs : List PendingMessage} {writes : List Write}
      → ((write : Write) → IsResent now msg write → ⊥)
      → Resends now msgs writes
      → Resends now (msg ∷ msgs) writes
  resent :
      {msg : PendingMessage} {msgs : List PendingMessage} {write : Write} {writes : List Write}
      → IsResent now msg write
      → Resends now msgs writes
      → Resends now (msg ∷ msgs) (write ∷ writes)

Resends-writes :
    (now : ℕ) (msgs : List PendingMessage) → Resends now msgs (concat (map (retry_write now) msgs))
Resends-writes now [] = no_more
Resends-writes now (msg ∷ msgs) =
    let rest = Resends-writes now msgs in
    elim (retry_write-length now msg) [
      | inl e ↦
          rw e (waits (λ write r. let m = (retry_write_iff now msg write).1 r in rw e at m) rest)
      | inr (write, e) ↦ rw e (resent ((retry_write_iff now msg write).0 (rw e (inl refl))) rest)
    ]

Resends-append :
    {now : ℕ} {msgs msgs' : List PendingMessage} {writes writes' : List Write}
    → Resends now msgs writes
    → Resends now msgs' writes'
    → Resends now (msgs ++ msgs') (writes ++ writes')
Resends-append no_more k = k
Resends-append (waits h r) k = waits h (Resends-append r k)
Resends-append (resent h r) k = resent h (Resends-append r k)

-- A round of retries goes over the entries of both maps, each of them once.
pub process_retries-Resends :
    (now : ℕ) (qm : QosManager)
    → IsManager qm
    → (qos1 qos2 : List (Entry PendingMessage)) × Enumerates
        (λ c i. find_entry c i qm.pending_qos1)
        qos1
      × Enumerates (λ c i. find_entry c i qm.pending_qos2) qos2
      × Resends now (map value_of (qos1 ++ qos2)) (process_retries now qm).0
unfolding process_retries
process_retries-Resends now qm h =
    let qos1 = entries qm.pending_qos1 in
    let qos2 = entries qm.pending_qos2 in
    (
      qos1,
      qos2,
      Enumerates-entries qm.pending_qos1 h.qos1_IsNested,
      Enumerates-entries qm.pending_qos2 h.qos2_IsNested,
      rw (map-append value_of qos1 qos2, map-entries qm.pending_qos1, map-entries qm.pending_qos2)
          (Resends-append (Resends-writes now (all_entries qm.pending_qos1))
            (Resends-writes now (all_entries qm.pending_qos2))),
    )
