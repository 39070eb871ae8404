-- ===== src/Broker/Qos/History.antt =====
-- internal/broker/qos.go: the manager after any calls of its methods, against three slots for each
-- client and packet identifier.
use goqtt.Base.{ℕ, Bool, ◌&&◌, List, [], ◌∷◌, Option, none, some, if◌then◌else◌, Bytes, ◌==◌}
use goqtt.Text.{bytes_eq}
use goqtt.Dict.{bytes_key, nat_key}
use goqtt.Dict.Nested.{find_entry, and_then}
use goqtt.Dict.Nested.Laws.{IsNested}
use goqtt.Broker.Qos.{
  QosManager, PendingMessage, ReceivedQos2, new_qos_manager, started, received_message,
  add_pending_qos1, add_pending_qos2, handle_pub_ack, handle_pub_rec, handle_pub_comp,
  handle_incoming_qos2_publish, handle_incoming_pub_rel, cleanup_client, retry_pending,
  process_retries, expire, cleanup_timed_out_messages,
}

-- A call of a method that changes the manager, with the time of the call.
pub data Call : Type 0 where
  qos1_added : ℕ → PendingMessage → Call
  qos2_added : ℕ → PendingMessage → Call
  pub_acked : Bytes → ℕ → Call
  pub_recorded : ℕ → Bytes → ℕ → Call
  pub_completed : Bytes → ℕ → Call
  published : ℕ → Bytes → ℕ → Bytes → Bytes → Bool → Call
  released : Bytes → ℕ → Call
  client_left : Bytes → Call
  retried : ℕ → Call
  timed_out : ℕ → Call

-- No method but `processRetries` looks at the connections, and it only writes to them.
unfoldable pub call : Call → QosManager → QosManager
call (qos1_added now msg) qm = add_pending_qos1 now msg qm
call (qos2_added now msg) qm = add_pending_qos2 now msg qm
call (pub_acked c i) qm = (handle_pub_ack c i qm).1
call (pub_recorded now c i) qm = (handle_pub_rec now c i qm).1
call (pub_completed c i) qm = (handle_pub_comp c i qm).1
call (published now c i topic payload retain) qm =
    (handle_incoming_qos2_publish now c i topic payload retain qm).1
call (released c i) qm = (handle_incoming_pub_rel c i qm).1
call (client_left c) qm = cleanup_client c qm
call (retried now) qm = (process_retries now qm).1
call (timed_out now) qm = cleanup_timed_out_messages now qm

-- The manager after the calls, the last one first.
unfoldable pub manager_of : List Call → QosManager
manager_of [] = new_qos_manager
manager_of (last ∷ history) = call last (manager_of history)

-- Every client in the maps has a message there, and nothing stands twice.
pub record IsManager (qm : QosManager) : Type 0 where
  pub qos1_IsNested : IsNested qm.pending_qos1
  pub qos2_IsNested : IsNested qm.pending_qos2
  pub received_IsNested : IsNested qm.qos2_received

-- What the manager holds of one client and identifier.
pub record Slots : Type 0 where
  pub qos1 : Option PendingMessage
  pub qos2 : Option PendingMessage
  pub received : Option ReceivedQos2

abbrev pub slots_of : Bytes → ℕ → QosManager → Slots
slots_of c i qm = record {
  qos1 = find_entry c i qm.pending_qos1;
  qos2 = find_entry c i qm.pending_qos2;
  received = find_entry c i qm.qos2_received;
}

abbrev with_qos1 : Option PendingMessage → Slots → Slots
with_qos1 m s = record { qos1 = m; qos2 = s.qos2; received = s.received }

abbrev with_qos2 : Option PendingMessage → Slots → Slots
with_qos2 m s = record { qos1 = s.qos1; qos2 = m; received = s.received }

abbrev with_received : Option ReceivedQos2 → Slots → Slots
with_received m s = record { qos1 = s.qos1; qos2 = s.qos2; received = m }

abbrev pub or_else : {A : Type 0} → Option A → A → A
or_else none b = b
or_else (some a) b = a

-- A PUBREC moves the message from one slot to the other.
abbrev pub record_slots : ℕ → Bytes → ℕ → Option PendingMessage → Slots → Slots
record_slots now c i none s = s
record_slots now c i (some msg) s = record {
  qos1 = s.qos1;
  qos2 = none;
  received = some (received_message c i msg.topic msg.payload msg.retain now);
}

-- What a call does to the slots of `c` and `i`; a call for another client or identifier does
-- nothing to them.
unfoldable pub call_slots : Bytes → ℕ → Call → Slots → Slots
call_slots c i (qos1_added now msg) s =
    if bytes_eq msg.client_id c && msg.packet_id == i
    then with_qos1 (some (started now msg)) s
    else s
call_slots c i (qos2_added now msg) s =
    if bytes_eq msg.client_id c && msg.packet_id == i
    then with_qos2 (some (started now msg)) s
    else s
call_slots c i (pub_acked b j) s = if bytes_eq b c && j == i then with_qos1 none s else s
call_slots c i (pub_recorded now b j) s =
    if bytes_eq b c && j == i then record_slots now c i s.qos2 s else s
call_slots c i (pub_completed b j) s = if bytes_eq b c && j == i then with_received none s else s
call_slots c i (published now b j topic payload retain) s =
    if bytes_eq b c && j == i
    then with_received (some (or_else s.received (received_message c i topic payload retain now))) s
    else s
call_slots c i (released b j) s = if bytes_eq b c && j == i then with_received none s else s
call_slots c i (client_left b) s =
    if bytes_eq b c then record { qos1 = none; qos2 = none; received = none } else s
call_slots c i (retried now) s = record {
  qos1 = and_then (retry_pending now) s.qos1;
  qos2 = and_then (retry_pending now) s.qos2;
  received = s.received;
}
call_slots c i (timed_out now) s = with_received (and_then (expire now) s.received) s

unfoldable pub slots_after : Bytes → ℕ → List Call → Slots
slots_after c i [] = record { qos1 = none; qos2 = none; received = none }
slots_after c i (last ∷ history) = call_slots c i last (slots_after c i history)
