-- ===== src/Broker/Qos/Tests.antt =====
-- The theorems on the messages of QoS 1 and 2 at concrete inputs.
use goqtt.Base.{true, false, List, [], ◌∷◌, none, some, ◌≡◌, refl, Bytes}
use goqtt.Broker.Qos.Delivery.{pub_rel_collision}
use goqtt.Broker.Qos.History.{
  Call, qos1_added, qos2_added, pub_recorded, retried, manager_of, IsManager, slots_of, slots_after,
  call,
}
use goqtt.Broker.Qos.Invariant.{manager_of-IsManager}
use goqtt.Broker.Qos.Retries.{manager_of-IsBounded, manager_of-gives_up, IsBounded}
use goqtt.Broker.Qos.Slots.{slots-manager_of}
use goqtt.Broker.Qos.{
  PendingMessage, received_message, started, handle_pub_rec, handle_incoming_qos2_publish,
  handle_incoming_pub_rel, add_pending_qos1, add_pending_qos2, new_qos_manager, second,
}
use goqtt.Dict.Nested.{find_entry, add_entry}
use goqtt.Broker.Session.{zero_session}
use goqtt.Dict.{lookup, insert}
use goqtt.Text.{bytes_eq}

abbrev alice : Bytes
alice = b'x' ∷ []

abbrev hi : Bytes
hi = b'h' ∷ b'i' ∷ []

abbrev t : Bytes
t = b't' ∷ []

abbrev message : PendingMessage
message = record {
  packet_id = 7;
  client_id = alice;
  topic = t;
  payload = hi;
  qos = 1;
  retain = false;
  timestamp = 0;
  retry_count = 0;
  max_retries = 0;
  retry_delay = 0;
  session = some (record zero_session { client_id = alice; conn = some 1 });
}

abbrev calls : List Call
calls = retried second ∷ pub_recorded 5 alice 7 ∷ qos2_added 3 message ∷ qos1_added 1 message ∷ []

slots-manager_of_example : slots_of alice 7 (manager_of calls) ≡ slots_after alice 7 calls
slots-manager_of_example = slots-manager_of calls alice 7

manager_of-IsManager_example : IsManager (manager_of calls)
manager_of-IsManager_example = manager_of-IsManager calls

new_empty : find_entry alice 7 new_qos_manager.qos2_received ≡ none
unfolding find_entry lookup
new_empty = refl

pending_qos2 :
    find_entry alice 7 (add_pending_qos2 3 message new_qos_manager).pending_qos2
    ≡ some (started 3 message)
unfolding find_entry lookup add_pending_qos2 add_entry insert bytes_eq
pending_qos2 = refl

pub_rel_collision_example :
    (handle_incoming_pub_rel alice 7
      (handle_incoming_qos2_publish 6 alice 7 hi t true
        (handle_pub_rec 5 alice 7 (add_pending_qos2 3 message new_qos_manager)).1).1).0.0
    ≡ some (received_message alice 7 t hi false 5)
pub_rel_collision_example =
    pub_rel_collision 5 6 alice 7 (started 3 message) hi t true
      (add_pending_qos2 3 message new_qos_manager) pending_qos2

manager_of-IsBounded_example :
    IsBounded (find_entry alice 7 (manager_of calls).pending_qos1)
    × IsBounded (find_entry alice 7 (manager_of calls).pending_qos2)
manager_of-IsBounded_example = manager_of-IsBounded calls alice 7 (tt, (tt, (refl, (refl, tt))))

pending_qos1 :
    find_entry alice 7 (manager_of (qos1_added 0 message ∷ [])).pending_qos1
    ≡ some (started 0 message)
unfolding find_entry lookup add_pending_qos1 add_entry insert manager_of call bytes_eq
pending_qos1 = refl

manager_of-gives_up_example :
    find_entry alice 7
      (manager_of (
        retried 120000000000
        ∷ retried 90000000000
        ∷ retried 60000000000
        ∷ retried 30000000000
        ∷ qos1_added 0 message
        ∷ [])).pending_qos1
    ≡ none
manager_of-gives_up_example =
    manager_of-gives_up (qos1_added 0 message ∷ []) alice 7 30000000000 60000000000 90000000000
      120000000000 (started 0 message) (refl, tt) pending_qos1 refl refl refl refl
