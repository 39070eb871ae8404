-- ===== src/Broker/Qos/Invariant.antt =====
-- internal/broker/qos.go: the maps of the manager keep their shape.
use goqtt.Base.{inr, inl, ◌⊎◌, ℕ, Bool, List, [], ◌∷◌, Option, none, some, ◌≡◌, arith, Bytes}
use goqtt.Dict.{lookup, delete, bytes_key, nat_key}
use goqtt.Dict.Laws.{lookup-delete, delete-IsMap}
use goqtt.Dict.Nested.{Nested, find_entry, add_entry, remove_entry}
use goqtt.Dict.Nested.Laws.{
  IsNested, add_entry-IsNested, remove_entry-IsNested, update_entries-IsNested,
}
use goqtt.Broker.Qos.{
  with_qos2, with_received, with_qos1, move_pending, QosManager, PendingMessage, ReceivedQos2,
  started, received_message, add_pending_qos1, add_pending_qos2, handle_pub_ack, handle_pub_rec,
  handle_pub_comp, handle_incoming_qos2_publish, handle_incoming_pub_rel, cleanup_client,
  retry_pending, process_retries, expire, cleanup_timed_out_messages,
}
use goqtt.Broker.Qos.History.{
  Call, qos1_added, qos2_added, pub_acked, pub_recorded, pub_completed, published, released,
  client_left, retried, timed_out, call, manager_of, IsManager,
}

delete-IsNested : {V : Type 0} (b : Bytes) (d : Nested V) → IsNested d → IsNested (delete b d)
delete-IsNested b d h =
    (delete-IsMap b d h.0, λ c inner e. h.1 c inner (ground (arith, lookup-delete b c d)))

empty-IsNested : {V : Type 0} → IsNested {V = V} []
unfolding lookup
empty-IsNested = (tt, λ c inner e. absurd (ground arith))

with_qos1-IsManager :
    (d : Nested PendingMessage) (qm : QosManager)
    → IsNested d
    → IsManager qm
    → IsManager (with_qos1 d qm)
with_qos1-IsManager d qm n h = record {
  qos1_IsNested = n;
  qos2_IsNested = h.qos2_IsNested;
  received_IsNested = h.received_IsNested;
}

with_qos2-IsManager :
    (d : Nested PendingMessage) (qm : QosManager)
    → IsNested d
    → IsManager qm
    → IsManager (with_qos2 d qm)
with_qos2-IsManager d qm n h = record {
  qos1_IsNested = h.qos1_IsNested;
  qos2_IsNested = n;
  received_IsNested = h.received_IsNested;
}

with_received-IsManager :
    (d : Nested ReceivedQos2) (qm : QosManager)
    → IsNested d
    → IsManager qm
    → IsManager (with_received d qm)
with_received-IsManager d qm n h = record {
  qos1_IsNested = h.qos1_IsNested;
  qos2_IsNested = h.qos2_IsNested;
  received_IsNested = n;
}

-- A state that is the old one or a lawful one.
one_of-IsManager :
    {qm : QosManager} (a b : QosManager)
    → IsManager a
    → IsManager b
    → (qm ≡ a) ⊎ (qm ≡ b)
    → IsManager qm
one_of-IsManager a b h k (inl e) = rw e h
one_of-IsManager a b h k (inr e) = rw e k

module _ (c : Bytes) (i : ℕ) (qm : QosManager) (h : IsManager qm) where
  pub_ack-IsManager : IsManager (handle_pub_ack c i qm).1
  unfolding handle_pub_ack
  pub_ack-IsManager =
      one_of-IsManager qm (with_qos1 (remove_entry c i qm.pending_qos1) qm) h
        (with_qos1-IsManager _ qm (remove_entry-IsNested c i qm.pending_qos1 h.qos1_IsNested) h)
        (ground arith)

  received_removed : IsManager (with_received (remove_entry c i qm.qos2_received) qm)
  received_removed =
      with_received-IsManager _ qm (remove_entry-IsNested c i qm.qos2_received h.received_IsNested)
        h

  pub_comp-IsManager : IsManager (handle_pub_comp c i qm).1
  unfolding handle_pub_comp
  pub_comp-IsManager =
      one_of-IsManager qm (with_received (remove_entry c i qm.qos2_received) qm) h received_removed
        (ground arith)

  pub_rel-IsManager : IsManager (handle_incoming_pub_rel c i qm).1
  unfolding handle_incoming_pub_rel
  pub_rel-IsManager =
      one_of-IsManager qm (with_received (remove_entry c i qm.qos2_received) qm) h received_removed
        (ground arith)

  received_added :
      (r : ReceivedQos2) → IsManager (with_received (add_entry c i r qm.qos2_received) qm)
  received_added r =
      with_received-IsManager _ qm (add_entry-IsNested c i r qm.qos2_received h.received_IsNested) h

  publish-IsManager :
      (now : ℕ) (topic payload : Bytes) (retain : Bool)
      → IsManager (handle_incoming_qos2_publish now c i topic payload retain qm).1
  unfolding handle_incoming_qos2_publish
  publish-IsManager now topic payload retain =
      let r = received_message c i topic payload retain now in
      one_of-IsManager qm (with_received (add_entry c i r qm.qos2_received) qm) h (received_added r)
        (ground arith)

  pub_rec-IsManager : (now : ℕ) → IsManager (handle_pub_rec now c i qm).1
  unfolding handle_pub_rec move_pending
  pub_rec-IsManager now = go (find_entry c i qm.pending_qos2)
    where
      go : (o : Option PendingMessage) → IsManager (move_pending now c i o qm).1
      go none = h
      go (some msg) =
          with_qos2-IsManager _ _ (remove_entry-IsNested c i qm.pending_qos2 h.qos2_IsNested)
            (received_added (received_message c i msg.topic msg.payload msg.retain now))

-- Every method keeps the maps in shape.
call-IsManager : (last : Call) (qm : QosManager) → IsManager qm → IsManager (call last qm)
unfolding call add_pending_qos1 add_pending_qos2 cleanup_client process_retries
    cleanup_timed_out_messages
call-IsManager (qos1_added now msg) qm h =
    with_qos1-IsManager _ qm
      (add_entry-IsNested msg.client_id msg.packet_id (started now msg) qm.pending_qos1
        h.qos1_IsNested)
      h
call-IsManager (qos2_added now msg) qm h =
    with_qos2-IsManager _ qm
      (add_entry-IsNested msg.client_id msg.packet_id (started now msg) qm.pending_qos2
        h.qos2_IsNested)
      h
call-IsManager (pub_acked c i) qm h = pub_ack-IsManager c i qm h
call-IsManager (pub_recorded now c i) qm h = pub_rec-IsManager c i qm h now
call-IsManager (pub_completed c i) qm h = pub_comp-IsManager c i qm h
call-IsManager (published now c i topic payload retain) qm h =
    publish-IsManager c i qm h now topic payload retain
call-IsManager (released c i) qm h = pub_rel-IsManager c i qm h
call-IsManager (client_left c) qm h = record {
  qos1_IsNested = delete-IsNested c qm.pending_qos1 h.qos1_IsNested;
  qos2_IsNested = delete-IsNested c qm.pending_qos2 h.qos2_IsNested;
  received_IsNested = delete-IsNested c qm.qos2_received h.received_IsNested;
}
call-IsManager (retried now) qm h = record {
  qos1_IsNested = update_entries-IsNested (retry_pending now) qm.pending_qos1 h.qos1_IsNested;
  qos2_IsNested = update_entries-IsNested (retry_pending now) qm.pending_qos2 h.qos2_IsNested;
  received_IsNested = h.received_IsNested;
}
call-IsManager (timed_out now) qm h =
    with_received-IsManager _ qm
      (update_entries-IsNested (expire now) qm.qos2_received h.received_IsNested) h

-- After any calls no client has an empty map in the manager, and nothing stands twice.
pub manager_of-IsManager : (history : List Call) → IsManager (manager_of history)
unfolding manager_of
manager_of-IsManager [] = record {
  qos1_IsNested = empty-IsNested;
  qos2_IsNested = empty-IsNested;
  received_IsNested = empty-IsNested;
}
manager_of-IsManager (last ∷ history) =
    call-IsManager last (manager_of history) (manager_of-IsManager history)
