-- ===== src/Transport/Limit.antt =====
-- internal/transport/tcp.go, `checkServerAvailability`: how many handlers can run.
use goqtt.Transport.Dispatch.{handle_frame}
use goqtt.Dict.Laws.{
  length-delete_missing, length-insert_new, length-delete_found, length-insert_old, IsMap,
}
use goqtt.Transport.Frame.{Frame}
use goqtt.Transport.Handler.{World}
use goqtt.Transport.Counter.{
  settle-checked, network_of-IsCounted, refused_by, IsCounted, refusals, refusals_of,
}
use goqtt.Base.{
  max, Option-cases, String, inl, inr, ◌+◌, arith, ◌≤◌, length, ◌^◌, ◌<◌, Option, Bytes, ℕ, List,
  ◌≡◌, refl, false, none, some, ◌∷◌, [],
}
use goqtt.Dict.{Dict, lookup, insert, delete, bytes_key, nat_key}
use goqtt.Transport.Server.{
  Step, Connection, check_server_availability, start_handler, goes_on, returns,
}
use goqtt.Transport.Network.{
  Network, Event, tick, accept, settle, handle_event, network_of, receive, start, accepted, started,
  received, ticked, stopped,
}

-- The handlers that have passed the check and have not been counted yet.
unfoldable pub passed : Dict ℕ (Option String) → ℕ
passed [] = 0
passed ((conn, none) ∷ d) = passed d + 1
passed ((conn, some reason) ∷ d) = passed d

passed-le : (d : Dict ℕ (Option String)) → passed d ≤ length d
unfolding passed
passed-le [] = omega arith
passed-le ((conn, none) ∷ d) = omega (arith, passed-le d)
passed-le ((conn, some reason) ∷ d) = omega (arith, passed-le d)

passed-insert :
    (conn : ℕ) (reason : Option String) (d : Dict ℕ (Option String))
    → lookup conn d ≡ none
    → passed (insert conn reason d) ≡ passed d + passed ((conn, reason) ∷ [])
unfolding passed lookup insert
passed-insert conn none [] e = refl
passed-insert conn (some reason) [] e = refl
passed-insert conn reason ((j, none) ∷ d) e = ground (arith, passed-insert conn reason d)
passed-insert conn reason ((j, some other) ∷ d) e = ground (arith, passed-insert conn reason d)

passed-delete : (conn : ℕ) (d : Dict ℕ (Option String)) → passed (delete conn d) ≤ passed d
unfolding passed delete
passed-delete conn [] = omega arith
passed-delete conn ((j, none) ∷ d) = ground (arith, passed-delete conn d)
passed-delete conn ((j, some other) ∷ d) = ground (arith, passed-delete conn d)

passed-delete_found :
    (conn : ℕ) (d : Dict ℕ (Option String))
    → lookup conn d ≡ some none
    → passed (delete conn d) + 1 ≤ passed d
unfolding passed delete lookup
passed-delete_found conn [] e = cc
passed-delete_found conn ((j, none) ∷ d) e =
    let fewer = passed-delete conn d in ground (arith, passed-delete_found conn d)
passed-delete_found conn ((j, some other) ∷ d) e = ground (arith, passed-delete_found conn d)

-- The most connections that ever stood at once between their check and the step that acts on it.
abbrev pub crowd : List Event → ℕ
crowd [] = 0
crowd (event ∷ history) = max (length (network_of (event ∷ history)).1.checked) (crowd history)

-- The handlers, with those to come, are no more than the limit allows.
abbrev AreWithin : ℕ → Network → Type 0
AreWithin bound n = length n.handlers + passed n.checked ≤ bound

-- The check of a connection: at most 999 are counted then.
check-AreWithin :
    (most refused : ℕ) (n : Network)
    → IsCounted refused n
    → refused < 2 ^ 30
    → most < 2 ^ 30
    → AreWithin (999 + most + refused) n
    → check_server_availability n.server ≡ none
    → length n.handlers ≤ 999 + refused
unfolding check_server_availability
check-AreWithin most refused n h small few within e =
    let counted = h.counted in let limit = h.limit in let wraps = h.wraps in ground arith

accept-AreWithin :
    (conn : ℕ) (reason : Option (Option String)) (old : Option Connection) (most refused : ℕ)
    (n : Network)
    → lookup conn n.checked ≡ reason
    → IsCounted refused n
    → refused < 2 ^ 30
    → most < 2 ^ 30
    → length (accept conn reason old n).checked ≤ most
    → AreWithin (999 + most + refused) n
    → AreWithin (999 + most + refused) (accept conn reason old n)
unfolding accept passed
accept-AreWithin conn none none most refused n e h small few crowded within =
    let reason = check_server_availability n.server in
    let more = passed-insert conn reason n.checked e in
    let all = passed-le (insert conn reason n.checked) in
    elim (Option-cases reason) [
      | inl q ↦
          let free = check-AreWithin most refused n h small few within q in
          omega (arith, all, free, crowded)
      | inr (why, q) ↦
          let none_more : passed ((conn, reason) ∷ []) ≡ 0 = rw q refl in
          omega (arith, more, none_more, within)
    ]
accept-AreWithin conn none (some c) most refused n e h small few crowded within = within
accept-AreWithin conn (some reason) old most refused n e h small few crowded within = within

-- A handler that goes on or returns is no new one.
settle-count :
    (w : World) (conn : ℕ) (client_id : Bytes) (old : Connection) (n : Network) (step : Step)
    → IsMap n.handlers
    → lookup conn n.handlers ≡ some old
    → length (settle w conn client_id n step).1.handlers ≤ length n.handlers
unfolding settle
settle-count w conn client_id old n (goes_on c, sent, srv) h e =
    let same = length-insert_old conn c old n.handlers e in omega (arith, same)
settle-count w conn client_id old n (returns, sent, srv) h e =
    let less = length-delete_found conn old n.handlers h e in omega (arith, less)

receive-count :
    (w : World) (conn : ℕ) (frame : Frame) (old : Option Connection) (n : Network)
    → IsMap n.handlers
    → lookup conn n.handlers ≡ old
    → length (receive w conn frame old n).1.handlers ≤ length n.handlers
unfolding receive
receive-count w conn frame none n h e = omega arith
receive-count w conn frame (some c) n h e =
    settle-count w conn c.client_id c n (handle_frame w c frame n.server) h e

receive-checked :
    (w : World) (conn : ℕ) (frame : Frame) (old : Option Connection) (n : Network)
    → (receive w conn frame old n).1.checked ≡ n.checked
unfolding receive
receive-checked w conn frame none n = refl
receive-checked w conn frame (some c) n = settle-checked w conn c.client_id _ n

-- The handler acts on the reason.
start-AreWithin :
    (w : World) (conn : ℕ) (reason : Option (Option String)) (bound : ℕ) {refused : ℕ} (n : Network)
    → lookup conn n.checked ≡ reason
    → IsCounted refused n
    → AreWithin bound n
    → AreWithin (bound + refused_by reason) (start w conn reason n).1
unfolding start settle start_handler
start-AreWithin w conn none bound n e h within = omega (arith, within)
start-AreWithin w conn (some none) bound n e h within =
    let c : Connection = record { conn = conn; client_id = []; session_established = false } in
    let more = length-insert_new conn c n.handlers (h.apart conn none e) in
    let fewer = passed-delete_found conn n.checked e in omega (arith, within, more, fewer)
start-AreWithin w conn (some (some reason)) bound n e h within =
    let same = length-delete_missing conn n.handlers (h.apart conn (some reason) e) in
    let fewer = passed-delete conn n.checked in omega (arith, within, same, fewer)

handle_event-AreWithin :
    (event : Event) (most refused : ℕ) (n : Network)
    → IsCounted refused n
    → refused < 2 ^ 30
    → most < 2 ^ 30
    → length (handle_event event n).1.checked ≤ most
    → AreWithin (999 + most + refused) n
    → AreWithin (999 + most + (refusals_of event n + refused)) (handle_event event n).1
unfolding handle_event refusals_of tick
handle_event-AreWithin (accepted conn) most refused n h small few crowded within =
    let kept =
      accept-AreWithin conn _ (lookup conn n.handlers) most refused n refl h small few crowded
        within in
    omega (arith, kept)
handle_event-AreWithin (started w conn) most refused n h small few crowded within =
    let moved =
      start-AreWithin w conn (lookup conn n.checked) (999 + most + refused) n refl h within in
    omega (arith, moved)
handle_event-AreWithin (received w conn frame) most refused n h small few crowded within =
    let old = lookup conn n.handlers in
    let fewer = receive-count w conn frame old n h.distinct refl in
    let same = receive-checked w conn frame old n in rw same (omega (arith, fewer, within))
handle_event-AreWithin (ticked w) most refused n h small few crowded within = omega (arith, within)
handle_event-AreWithin stopped most refused n h small few crowded within = omega (arith, within)

network_of-AreWithin :
    (history : List Event) (most : ℕ)
    → refusals history < 2 ^ 30
    → most < 2 ^ 30
    → crowd history ≤ most
    → AreWithin (999 + most + refusals history) (network_of history).1
unfolding network_of refusals passed
network_of-AreWithin [] most small few crowded = omega arith
network_of-AreWithin (event ∷ history) most small few crowded =
    let before : refusals history < 2 ^ 30 = omega (arith, small) in
    handle_event-AreWithin event most (refusals history) _ (network_of-IsCounted history) before few
      (omega (arith, crowded))
      (network_of-AreWithin history most before few (omega (arith, crowded)))

-- While fewer than 2 ^ 30 connections have been refused, no more handlers are in their loop than 999
-- and one more for each connection that was refused, and one more for each of the connections that
-- at the most crowded moment stood together between their check and the step that acts on it, where
-- those are fewer than 2 ^ 30.
pub network_of-count :
    (history : List Event)
    → refusals history < 2 ^ 30
    → crowd history < 2 ^ 30
    → length (network_of history).1.handlers ≤ 999 + crowd history + refusals history
network_of-count history small few =
    let within = network_of-AreWithin history (crowd history) small few (omega arith) in
    omega (arith, within)
