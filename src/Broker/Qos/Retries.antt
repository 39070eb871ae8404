-- ===== src/Broker/Qos/Retries.antt =====
-- internal/broker/qos.go, `processRetries`: how often a message is sent, and when it is given up.
use goqtt.Base.{
  sym, ◌∙◌, ap, ℕ, true, ◌+◌, List, [], ◌∷◌, Option, none, some, ◌≡◌, arith, Bytes, leb,
}
use goqtt.Dict.Nested.{find_entry, and_then}
use goqtt.Broker.Qos.{PendingMessage, retry_pending, default_retry_delay}
use goqtt.Broker.Qos.History.{
  Call, qos1_added, qos2_added, pub_acked, pub_recorded, pub_completed, published, released,
  client_left, retried, timed_out, manager_of, Slots, call_slots, slots_after, record_slots,
}
use goqtt.Broker.Qos.Slots.{slots-manager_of}

-- The messages that the calls add are new, as those of `deliverMessage` are.
abbrev pub IsFresh : Call → Type 0
IsFresh (qos1_added now msg) = msg.retry_count ≡ 0
IsFresh (qos2_added now msg) = msg.retry_count ≡ 0
IsFresh (pub_acked c i) = Unit
IsFresh (pub_recorded now c i) = Unit
IsFresh (pub_completed c i) = Unit
IsFresh (published now c i topic payload retain) = Unit
IsFresh (released c i) = Unit
IsFresh (client_left c) = Unit
IsFresh (retried now) = Unit
IsFresh (timed_out now) = Unit

abbrev pub AreFresh : List Call → Type 0
AreFresh [] = Unit
AreFresh (last ∷ history) = IsFresh last × AreFresh history

-- No pending message, or one with its three retries at most.
abbrev pub IsBounded : Option PendingMessage → Type 0
IsBounded none = Unit
IsBounded (some msg) =
    (leb msg.retry_count 3 ≡ true) × (msg.max_retries ≡ 3) × (msg.retry_delay ≡ default_retry_delay)

retry_pending-IsBounded :
    (now : ℕ) (o : Option PendingMessage) → IsBounded o → IsBounded (and_then (retry_pending now) o)
unfolding retry_pending
retry_pending-IsBounded now none h = tt
retry_pending-IsBounded now (some msg) h = ground arith

record_slots-IsBounded :
    (now : ℕ) (c : Bytes) (i : ℕ) (o : Option PendingMessage) (s : Slots)
    → IsBounded s.qos1 × IsBounded s.qos2
    → IsBounded (record_slots now c i o s).qos1 × IsBounded (record_slots now c i o s).qos2
record_slots-IsBounded now c i none s h = h
record_slots-IsBounded now c i (some msg) s h = (h.0, tt)

call_slots-IsBounded :
    (c : Bytes) (i : ℕ) (last : Call) (s : Slots)
    → IsFresh last
    → IsBounded s.qos1 × IsBounded s.qos2
    → IsBounded (call_slots c i last s).qos1 × IsBounded (call_slots c i last s).qos2
unfolding call_slots
call_slots-IsBounded c i (qos1_added now msg) s f h = ground arith
call_slots-IsBounded c i (qos2_added now msg) s f h = ground arith
call_slots-IsBounded c i (pub_acked b j) s f h = ground arith
call_slots-IsBounded c i (pub_recorded now b j) s f h =
    ground (arith, record_slots-IsBounded now c i s.qos2 s h)
call_slots-IsBounded c i (pub_completed b j) s f h = ground arith
call_slots-IsBounded c i (published now b j topic payload retain) s f h = ground arith
call_slots-IsBounded c i (released b j) s f h = ground arith
call_slots-IsBounded c i (client_left b) s f h = ground arith
call_slots-IsBounded c i (retried now) s f h =
    (retry_pending-IsBounded now s.qos1 h.0, retry_pending-IsBounded now s.qos2 h.1)
call_slots-IsBounded c i (timed_out now) s f h = h

slots_after-IsBounded :
    (history : List Call) (c : Bytes) (i : ℕ)
    → AreFresh history
    → IsBounded (slots_after c i history).qos1 × IsBounded (slots_after c i history).qos2
unfolding slots_after
slots_after-IsBounded [] c i h = (tt, tt)
slots_after-IsBounded (last ∷ history) c i h =
    call_slots-IsBounded c i last (slots_after c i history) h.0
      (slots_after-IsBounded history c i h.1)

-- After any calls in which the messages added are new, every pending message has been sent again
-- three times at most, and has the default number of retries and the default delay.
pub manager_of-IsBounded :
    (history : List Call) (c : Bytes) (i : ℕ)
    → AreFresh history
    → IsBounded (find_entry c i (manager_of history).pending_qos1)
      × IsBounded (find_entry c i (manager_of history).pending_qos2)
manager_of-IsBounded history c i h =
    let e = slots-manager_of history c i in
    let (p, q) = slots_after-IsBounded history c i h in
    (rw (ap (λ s. s.qos1) e) p, rw (ap (λ s. s.qos2) e) q)

-- The slot of a pending message after four rounds, of which each comes a delay after the last one.
retry_four :
    (t1 t2 t3 t4 : ℕ) (msg : PendingMessage)
    → msg.max_retries ≡ 3
    → leb (msg.timestamp + msg.retry_delay) t1 ≡ true
    → leb (t1 + msg.retry_delay) t2 ≡ true
    → leb (t2 + msg.retry_delay) t3 ≡ true
    → leb (t3 + msg.retry_delay) t4 ≡ true
    → and_then
        (retry_pending t4)
        (and_then (retry_pending t3) (and_then (retry_pending t2) (retry_pending t1 msg)))
      ≡ none
unfolding retry_pending
retry_four t1 t2 t3 t4 msg m e1 e2 e3 e4 = ground arith

IsBounded-some :
    (o : Option PendingMessage) (msg : PendingMessage)
    → o ≡ some msg
    → IsBounded o
    → IsBounded (some msg)
IsBounded-some none msg e h = ground arith
IsBounded-some (some m) msg e h = ground arith

-- A message of QoS 1 that nobody acknowledges is given up: after any calls in which the messages
-- added are new, four rounds of retries, each of them a delay of 30 s or more after the last one,
-- leave nothing of it.
pub manager_of-gives_up :
    (history : List Call) (c : Bytes) (i t1 t2 t3 t4 : ℕ) (msg : PendingMessage)
    → AreFresh history
    → find_entry c i (manager_of history).pending_qos1 ≡ some msg
    → leb (msg.timestamp + default_retry_delay) t1 ≡ true
    → leb (t1 + default_retry_delay) t2 ≡ true
    → leb (t2 + default_retry_delay) t3 ≡ true
    → leb (t3 + default_retry_delay) t4 ≡ true
    → find_entry c i
        (manager_of (retried t4 ∷ retried t3 ∷ retried t2 ∷ retried t1 ∷ history)).pending_qos1
      ≡ none
unfolding slots_after call_slots
manager_of-gives_up history c i t1 t2 t3 t4 msg h e e1 e2 e3 e4 =
    let bound : IsBounded (some msg) =
      IsBounded-some _ msg e (manager_of-IsBounded history c i h).0 in
    let slot = sym (ap (λ s. s.qos1) (slots-manager_of history c i)) ∙ e in
    let rounds = retried t4 ∷ retried t3 ∷ retried t2 ∷ retried t1 ∷ history in
    ap (λ s. s.qos1) (slots-manager_of rounds c i)
    ∙ rw slot (
        retry_four t1 t2 t3 t4 msg bound.1 (rw bound.2 e1) (rw bound.2 e2) (rw bound.2 e3)
          (rw bound.2 e4))
