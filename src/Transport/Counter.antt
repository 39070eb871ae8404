-- ===== src/Transport/Counter.antt =====
-- internal/transport/tcp.go, `currentConnections`: the count against the handlers that run.
use goqtt.Transport.Rounds.First.{handle_frame-IsRound}
use goqtt.Transport.Frame.{Frame}
use goqtt.Dict.Laws.{
  lookup-insert, lookup-delete, length-delete_missing, length-delete_found, delete-IsMap,
  length-insert_new, length-insert_old, insert-IsMap, IsMap,
}
use goqtt.Transport.Handler.{World}
use goqtt.Transport.Invariant.{IsNetwork, network_of-IsNetwork}
use goqtt.Base.{
  ==_iff, ◌<◌, ◌∙◌, length, ◌^◌, arith, ◌%◌, String, Bytes, ◌+◌, ℕ, Option, List, ◌≡◌, refl, false,
  none, some, ◌∷◌, [],
}
use goqtt.Dict.{lookup, bytes_key, nat_key}
use goqtt.Transport.Server.{
  check_server_availability, sub_one, Step, stop, Server, Connection, start_handler, end_connection,
  goes_on, returns,
}
use goqtt.Transport.Network.{
  tick, Network, Event, handle_event, settle, receive, accept, start, network_of, accepted, started,
  received, ticked, stopped,
}

-- How many connections are refused by a handler that acts on the reason.
abbrev pub refused_by : Option (Option String) → ℕ
refused_by none = 0
refused_by (some none) = 0
refused_by (some (some reason)) = 1

unfoldable pub refusals_of : Event → Network → ℕ
refusals_of (accepted conn) n = 0
refusals_of (started w conn) n = refused_by (lookup conn n.checked)
refusals_of (received w conn frame) n = 0
refusals_of (ticked w) n = 0
refusals_of stopped n = 0

unfoldable pub refusals : List Event → ℕ
refusals [] = 0
refusals (event ∷ history) = refusals_of event (network_of history).1 + refusals history

-- The counter, with `refused` connections that were never counted, is the number of handlers.
pub record IsCounted (refused : ℕ) (n : Network) : Type 0 where
  pub limit : n.server.max_connections ≡ 1000
  pub wraps : n.server.current_connections < 2 ^ 32
  pub distinct : IsMap n.handlers
  pub apart :
      (conn : ℕ) (reason : Option String)
      → lookup conn n.checked ≡ some reason
      → lookup conn n.handlers ≡ none
  pub counted : (n.server.current_connections + refused) % 2 ^ 32 ≡ length n.handlers % 2 ^ 32

end_connection-current_connections :
    (now : ℕ) (client_id : Bytes) (srv : Server)
    → (end_connection now client_id srv).1.current_connections ≡ sub_one srv.current_connections
unfolding end_connection
end_connection-current_connections now client_id srv = ground arith

end_connection-max_connections :
    (now : ℕ) (client_id : Bytes) (srv : Server)
    → (end_connection now client_id srv).1.max_connections ≡ srv.max_connections
unfolding end_connection
end_connection-max_connections now client_id srv = ground arith

-- No more connections are refused.
same-IsCounted :
    {refused : ℕ} {n n' : Network}
    → n'.server.max_connections ≡ n.server.max_connections
    → n'.checked ≡ n.checked
    → n'.handlers ≡ n.handlers
    → n'.server.current_connections ≡ n.server.current_connections
    → IsCounted refused n
    → IsCounted (0 + refused) n'
same-IsCounted l k e c h = record {
  limit = l ∙ h.limit;
  wraps = let wraps = h.wraps in omega (arith, wraps, c);
  distinct = rw e h.distinct;
  apart = λ j reason f. rw e (h.apart j reason (rw k at f));
  counted = let counted = h.counted in rw e (omega (arith, counted, c));
}

-- The handler leaves the checked ones, and is counted, or is refused.
start-IsCounted :
    (w : World) (conn : ℕ) (reason : Option (Option String)) (refused : ℕ) {n : Network}
    → lookup conn n.checked ≡ reason
    → IsCounted refused n
    → IsCounted (refused_by reason + refused) (start w conn reason n).1
unfolding start settle start_handler
start-IsCounted w conn none refused e h = same-IsCounted refl refl refl refl h
start-IsCounted w conn (some none) refused {n} e h =
    let new = h.apart conn none e in
    let c : Connection = record { conn = conn; client_id = []; session_established = false } in
    record {
      limit = h.limit;
      wraps = omega arith;
      distinct = insert-IsMap conn c n.handlers h.distinct;
      apart = λ j reason f.
          let old = h.apart j reason in
          let gone = lookup-delete conn j n.checked in
          let put = lookup-insert conn j c n.handlers in ground (arith, ==_iff conn j);
      counted =
          let counted = h.counted in
          let more = length-insert_new conn c n.handlers new in omega (arith, counted, more);
    }
start-IsCounted w conn (some (some reason)) refused {n} e h =
    let new = h.apart conn (some reason) e in
    let less = end_connection-current_connections w.now [] n.server in
    record {
      limit = end_connection-max_connections w.now [] n.server ∙ h.limit;
      wraps = omega (arith, less);
      distinct = delete-IsMap conn n.handlers h.distinct;
      apart = λ j reason f.
          let old = h.apart j reason in
          let gone = lookup-delete conn j n.checked in
          let left = lookup-delete conn j n.handlers in ground (arith, ==_iff conn j);
      counted =
          let counted = h.counted in
          let same = length-delete_missing conn n.handlers new in
          omega (arith, counted, same, less);
    }

-- A handler that runs is none that has only run the check.
settle-apart :
    (w : World) (conn : ℕ) (old : Connection) (step : Step) (n : Network)
    → lookup conn n.handlers ≡ some old
    → ((j : ℕ) (reason : Option String)
        → lookup j n.checked ≡ some reason
        → lookup j n.handlers ≡ none)
    → (j : ℕ) (reason : Option String) → lookup j n.checked ≡ some reason
    → lookup j (settle w conn old.client_id n step).1.handlers ≡ none
unfolding settle
settle-apart w conn old (goes_on c, sent, srv) n e apart j reason f =
    let before = apart j reason f in
    let put = lookup-insert conn j c n.handlers in ground (arith, ==_iff conn j)
settle-apart w conn old (returns, sent, srv) n e apart j reason f =
    let before = apart j reason f in
    let left = lookup-delete conn j n.handlers in ground (arith, ==_iff conn j)

pub settle-checked :
    (w : World) (conn : ℕ) (client_id : Bytes) (step : Step) (n : Network)
    → (settle w conn client_id n step).1.checked ≡ n.checked
unfolding settle
settle-checked w conn client_id (goes_on c, sent, srv) n = refl
settle-checked w conn client_id (returns, sent, srv) n = refl

-- A handler goes on, or returns.
settle-IsCounted :
    (w : World) (conn : ℕ) (old : Connection) (step : Step) (refused : ℕ) {n : Network}
    → lookup conn n.handlers ≡ some old
    → step.2.current_connections ≡ n.server.current_connections
    → step.2.max_connections ≡ n.server.max_connections
    → IsCounted refused n
    → IsCounted refused (settle w conn old.client_id n step).1
unfolding settle
settle-IsCounted w conn old (goes_on c, sent, srv) refused {n} e same_count same_limit h = record {
  limit = same_limit ∙ h.limit;
  wraps = let wraps = h.wraps in omega (arith, wraps, same_count);
  distinct = insert-IsMap conn c n.handlers h.distinct;
  apart = settle-apart w conn old (goes_on c, sent, srv) n e h.apart;
  counted =
      let counted = h.counted in
      let same = length-insert_old conn c old n.handlers e in
      omega (arith, counted, same, same_count);
}
settle-IsCounted w conn old (returns, sent, srv) refused {n} e same_count same_limit h = record {
  limit = end_connection-max_connections w.now old.client_id srv ∙ (same_limit ∙ h.limit);
  wraps =
      let less = end_connection-current_connections w.now old.client_id srv in omega (arith, less);
  distinct = delete-IsMap conn n.handlers h.distinct;
  apart = settle-apart w conn old (returns, sent, srv) n e h.apart;
  counted =
      let counted = h.counted in
      let same = length-delete_found conn old n.handlers h.distinct e in
      let less = end_connection-current_connections w.now old.client_id srv in
      omega (arith, counted, same, less, same_count);
}

accept-IsCounted :
    (conn : ℕ) (reason : Option (Option String)) (old : Option Connection) (refused : ℕ)
    {n : Network}
    → lookup conn n.handlers ≡ old
    → IsCounted refused n
    → IsCounted refused (accept conn reason old n)
unfolding accept
accept-IsCounted conn none none refused {n} e h = record {
  limit = h.limit;
  wraps = h.wraps;
  distinct = h.distinct;
  apart = λ j reason f.
      let before = h.apart j reason in
      let put = lookup-insert conn j (check_server_availability n.server) n.checked in
      ground (arith, ==_iff conn j);
  counted = h.counted;
}
accept-IsCounted conn none (some c) refused e h = h
accept-IsCounted conn (some reason) old refused e h = h

received-IsCounted :
    (w : World) (conn : ℕ) (frame : Frame) (old : Option Connection) (refused : ℕ) {n : Network}
    → lookup conn n.handlers ≡ old
    → IsNetwork n
    → IsCounted refused n
    → IsCounted refused (receive w conn frame old n).1
unfolding receive
received-IsCounted w conn frame none refused e i h = h
received-IsCounted w conn frame (some c) refused {n} e i h =
    let round = handle_frame-IsRound w frame {srv = n.server} (i.handled conn c e) in
    settle-IsCounted w conn c _ refused e round.same_count round.same_limit h

handle_event-IsCounted :
    (event : Event) (refused : ℕ) {n : Network}
    → IsNetwork n
    → IsCounted refused n
    → IsCounted (refusals_of event n + refused) (handle_event event n).1
unfolding handle_event refusals_of tick stop
handle_event-IsCounted (accepted conn) refused i h =
    same-IsCounted refl refl refl refl (accept-IsCounted conn _ _ refused refl h)
handle_event-IsCounted (started w conn) refused i h = start-IsCounted w conn _ refused refl h
handle_event-IsCounted (received w conn frame) refused i h =
    same-IsCounted refl refl refl refl (received-IsCounted w conn frame _ refused refl i h)
handle_event-IsCounted (ticked w) refused i h = same-IsCounted refl refl refl refl h
handle_event-IsCounted stopped refused i h = same-IsCounted refl refl refl refl h

-- After any events the limit is 1000, no connection has two handlers, none whose handler has only run
-- the check has one in its loop, and the counter of the connections, a number below 2 ^ 32, is,
-- modulo 2 ^ 32, the number of the handlers in their loop less the number of the connections that
-- were refused.
pub network_of-IsCounted :
    (history : List Event) → IsCounted (refusals history) (network_of history).1
unfolding network_of refusals lookup
network_of-IsCounted [] = record {
  limit = refl;
  wraps = omega arith;
  distinct = tt;
  apart = λ conn reason e. refl;
  counted = refl;
}
network_of-IsCounted (event ∷ history) =
    handle_event-IsCounted event (refusals history) (network_of-IsNetwork history)
      (network_of-IsCounted history)
