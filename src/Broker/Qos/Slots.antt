-- ===== src/Broker/Qos/Slots.antt =====
-- internal/broker/qos.go: every method against what it does to the slots of one message.
use goqtt.Base.{
  ap, ◌∙◌, ℕ, Bool, List, [], ◌∷◌, Option, none, some, ◌≡◌, refl, arith, if◌then◌else◌, Bytes,
  ==_iff,
}
use goqtt.Text.{bytes_eq, bytes_eq_iff}
use goqtt.Dict.{lookup, delete, bytes_key, nat_key}
use goqtt.Dict.Laws.{lookup-delete}
use goqtt.Dict.Nested.{Nested, find_entry}
use goqtt.Dict.Nested.Laws.{
  find_entry-add_entry, find_entry-remove_entry, find_entry-update_entries,
}
use goqtt.Broker.Qos.{
  move_pending, QosManager, PendingMessage, started, received_message, add_pending_qos1,
  add_pending_qos2, handle_pub_ack, handle_pub_rec, handle_pub_comp, handle_incoming_qos2_publish,
  handle_incoming_pub_rel, move_pending, cleanup_client, retry_pending, process_retries, expire,
  cleanup_timed_out_messages,
}
use goqtt.Broker.Qos.History.{
  Call, qos1_added, qos2_added, pub_acked, pub_recorded, pub_completed, published, released,
  client_left, retried, timed_out, call, manager_of, IsManager, slots_of, call_slots, slots_after,
}
use goqtt.Broker.Qos.Invariant.{manager_of-IsManager}

add_qos1-slots :
    (c : Bytes) (i : ℕ) (now : ℕ) (msg : PendingMessage) (qm : QosManager)
    → slots_of c i (add_pending_qos1 now msg qm)
      ≡ call_slots c i (qos1_added now msg) (slots_of c i qm)
unfolding add_pending_qos1 call_slots
add_qos1-slots c i now msg qm =
    ground (
      arith,
      find_entry-add_entry msg.client_id msg.packet_id (started now msg) qm.pending_qos1 c i,
    )

pub_ack-slots :
    (c : Bytes) (i : ℕ) (b : Bytes) (j : ℕ) (qm : QosManager)
    → slots_of c i (handle_pub_ack b j qm).1 ≡ call_slots c i (pub_acked b j) (slots_of c i qm)
unfolding handle_pub_ack call_slots
pub_ack-slots c i b j qm =
    ground (arith, find_entry-remove_entry b j qm.pending_qos1 c i, bytes_eq_iff b c)

add_qos2-slots :
    (c : Bytes) (i : ℕ) (now : ℕ) (msg : PendingMessage) (qm : QosManager)
    → slots_of c i (add_pending_qos2 now msg qm)
      ≡ call_slots c i (qos2_added now msg) (slots_of c i qm)
unfolding add_pending_qos2 call_slots
add_qos2-slots c i now msg qm =
    ground (
      arith,
      find_entry-add_entry msg.client_id msg.packet_id (started now msg) qm.pending_qos2 c i,
    )

pub_rec-slots :
    (c : Bytes) (i : ℕ) (now : ℕ) (b : Bytes) (j : ℕ) (qm : QosManager)
    → slots_of c i (handle_pub_rec now b j qm).1
      ≡ call_slots c i (pub_recorded now b j) (slots_of c i qm)
unfolding handle_pub_rec move_pending call_slots
pub_rec-slots c i now b j qm = go (find_entry b j qm.pending_qos2) refl
  where
    go :
        (o : Option PendingMessage)
        → find_entry b j qm.pending_qos2 ≡ o
        → slots_of c i (move_pending now b j o qm).1
          ≡ call_slots c i (pub_recorded now b j) (slots_of c i qm)
    go none e = ground (arith, bytes_eq_iff b c, ==_iff j i)
    go (some msg) e =
        let r = received_message b j msg.topic msg.payload msg.retain now in
        ground (
          arith,
          find_entry-remove_entry b j qm.pending_qos2 c i,
          find_entry-add_entry b j r qm.qos2_received c i,
          bytes_eq_iff b c,
          ==_iff j i,
        )

pub_comp-slots :
    (c : Bytes) (i : ℕ) (b : Bytes) (j : ℕ) (qm : QosManager)
    → slots_of c i (handle_pub_comp b j qm).1 ≡ call_slots c i (pub_completed b j) (slots_of c i qm)
unfolding handle_pub_comp call_slots
pub_comp-slots c i b j qm =
    ground (arith, find_entry-remove_entry b j qm.qos2_received c i, bytes_eq_iff b c)

publish-slots :
    (c : Bytes) (i : ℕ) (now : ℕ) (b : Bytes) (j : ℕ) (topic payload : Bytes) (retain : Bool)
    (qm : QosManager)
    → slots_of c i (handle_incoming_qos2_publish now b j topic payload retain qm).1
      ≡ call_slots c i (published now b j topic payload retain) (slots_of c i qm)
unfolding handle_incoming_qos2_publish call_slots
publish-slots c i now b j topic payload retain qm = ground (
  arith,
  find_entry-add_entry b j (received_message b j topic payload retain now) qm.qos2_received c i,
  bytes_eq_iff b c,
  ==_iff j i,
)

pub_rel-slots :
    (c : Bytes) (i : ℕ) (b : Bytes) (j : ℕ) (qm : QosManager)
    → slots_of c i (handle_incoming_pub_rel b j qm).1
      ≡ call_slots c i (released b j) (slots_of c i qm)
unfolding handle_incoming_pub_rel call_slots
pub_rel-slots c i b j qm =
    ground (arith, find_entry-remove_entry b j qm.qos2_received c i, bytes_eq_iff b c)

find_entry-delete :
    {V : Type 0} (b c : Bytes) (i : ℕ) (d : Nested V)
    → find_entry c i (delete b d) ≡ (if bytes_eq b c then none else find_entry c i d)
unfolding find_entry lookup
find_entry-delete b c i d = ground (arith, lookup-delete b c d)

cleanup-slots :
    (c : Bytes) (i : ℕ) (b : Bytes) (qm : QosManager)
    → slots_of c i (cleanup_client b qm) ≡ call_slots c i (client_left b) (slots_of c i qm)
unfolding cleanup_client call_slots
cleanup-slots c i b qm = ground (
  arith,
  find_entry-delete b c i qm.pending_qos1,
  find_entry-delete b c i qm.pending_qos2,
  find_entry-delete b c i qm.qos2_received,
)

retried-slots :
    (c : Bytes) (i : ℕ) (now : ℕ) (qm : QosManager)
    → IsManager qm
    → slots_of c i (process_retries now qm).1 ≡ call_slots c i (retried now) (slots_of c i qm)
unfolding process_retries call_slots
retried-slots c i now qm h = rw (
  find_entry-update_entries (retry_pending now) qm.pending_qos1 c i h.qos1_IsNested,
  find_entry-update_entries (retry_pending now) qm.pending_qos2 c i h.qos2_IsNested,
)

timed_out-slots :
    (c : Bytes) (i : ℕ) (now : ℕ) (qm : QosManager)
    → IsManager qm
    → slots_of c i (cleanup_timed_out_messages now qm)
      ≡ call_slots c i (timed_out now) (slots_of c i qm)
unfolding cleanup_timed_out_messages call_slots
timed_out-slots c i now qm h =
    rw (find_entry-update_entries (expire now) qm.qos2_received c i h.received_IsNested)

-- A call does to the slots of each client and identifier what `call_slots` says.
pub slots-call :
    (c : Bytes) (i : ℕ) (last : Call) (qm : QosManager)
    → IsManager qm
    → slots_of c i (call last qm) ≡ call_slots c i last (slots_of c i qm)
unfolding call
slots-call c i (qos1_added now msg) qm h = add_qos1-slots c i now msg qm
slots-call c i (qos2_added now msg) qm h = add_qos2-slots c i now msg qm
slots-call c i (pub_acked b j) qm h = pub_ack-slots c i b j qm
slots-call c i (pub_recorded now b j) qm h = pub_rec-slots c i now b j qm
slots-call c i (pub_completed b j) qm h = pub_comp-slots c i b j qm
slots-call c i (published now b j topic payload retain) qm h =
    publish-slots c i now b j topic payload retain qm
slots-call c i (released b j) qm h = pub_rel-slots c i b j qm
slots-call c i (client_left b) qm h = cleanup-slots c i b qm
slots-call c i (retried now) qm h = retried-slots c i now qm h
slots-call c i (timed_out now) qm h = timed_out-slots c i now qm h

-- After any calls the manager holds of each client and identifier what its slots hold.
pub slots-manager_of :
    (history : List Call) (c : Bytes) (i : ℕ)
    → slots_of c i (manager_of history) ≡ slots_after c i history
unfolding manager_of slots_after find_entry lookup
slots-manager_of [] c i = refl
slots-manager_of (last ∷ history) c i =
    slots-call c i last (manager_of history) (manager_of-IsManager history)
    ∙ ap (call_slots c i last) (slots-manager_of history c i)
