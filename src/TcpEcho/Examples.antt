-- ===== src/TcpEcho/Examples.antt =====
-- The theorems on c/tcp_echo at short series of events.
use model_lib.Common.{
  ℕ, ◌-◌, Option, some, none, List, [], ◌∷◌, true, false, ◌≡◌, refl, sym, ap, subst, ◌∙◌, arith,
  length,
}
use model_lib.TcpEcho.{
  Read, got, read_again, end_of_file, Write, took, write_again, Client, Event, Occasion,
  handle_client_io, read_part, read_loop, write_loop, mark, new_client, Served, running, closed,
}
use model_lib.TcpEcho.Intact.{Intact, Fair, FairAll, FairWrites}
use model_lib.TcpEcho.Server.{
  Server, Run, going, fatal, dangling, Context, Peer, listening, connected, accepted, after_client,
  Wake, Wait, ready, interrupted, started, process_event, process_events, accept_client, main,
}
use model_lib.TcpEcho.Server.Promises.{FairWaits, FairWake, FairPeer}
use model_lib.TcpEcho.Server.Safe.{SafeMain, main-Safe}
use model_lib.TcpEcho.Drained.{DrainedAfter, handle_client_io-DrainedAfter}

-- A client that holds two bytes, the first of them sent.
abbrev half_sent : Client
half_sent = record {
  prd = true;
  pwr = true;
  buf = 0x61 ∷ 0x62 ∷ [];
  wr = 1;
  received = 0x61 ∷ 0x62 ∷ [];
  sent = 0x61 ∷ [];
}

abbrev reads : List Read
reads = got (0x63 ∷ 0x64 ∷ []) ∷ read_again ∷ []

abbrev writes : List Write
writes = took 2 ∷ took 1 ∷ []

half_sent-Intact : Intact half_sent
half_sent-Intact = record { order = omega arith; fits = omega arith; echo = refl }

-- What the handler has after its `read` calls.
abbrev refilled : Client
refilled = record half_sent {
  prd = false;
  buf = 0x61 ∷ 0x62 ∷ 0x63 ∷ 0x64 ∷ [];
  received = 0x61 ∷ 0x62 ∷ 0x63 ∷ 0x64 ∷ [];
}

half_sent-refilled : read_part reads half_sent ≡ running refilled
unfolding read_loop
half_sent-refilled = refl

-- What is left to send.
abbrev pending : Served → ℕ
pending (running c) = length c.buf - c.wr
pending (closed c) = 0

half_sent-Fair : Fair reads writes half_sent
half_sent-Fair = (
  (omega arith, omega arith, tt),
  λ c e.
      subst (λ k. FairWrites k writes) (ap pending (sym half_sent-refilled ∙ e))
        (omega arith, (omega arith, tt)),
)

handle_client_io-DrainedAfter_example : DrainedAfter (handle_client_io reads writes half_sent)
handle_client_io-DrainedAfter_example =
    handle_client_io-DrainedAfter reads writes half_sent half_sent-Intact half_sent-Fair

-- A client that sends two bytes and then closes, with a socket that takes one of them.
abbrev both_ways : Event
both_ways = record {
  readable = true;
  writable = true;
  peer_closed = false;
  error = false;
  hangup = false;
}

abbrev occasions : List Occasion
occasions =
    record {
      event = both_ways;
      reads = got (0x61 ∷ 0x62 ∷ []) ∷ read_again ∷ [];
      writes = took 1 ∷ write_again ∷ [];
    }
    ∷ record { event = both_ways; reads = end_of_file ∷ []; writes = [] }
    ∷ []

first_pending :
    (c : Client)
    → read_part (got (0x61 ∷ 0x62 ∷ []) ∷ read_again ∷ []) (mark both_ways new_client) ≡ running c
    → 2 ≡ length c.buf - c.wr
unfolding read_loop mark
first_pending c e = ap pending e

occasions-FairAll : FairAll occasions new_client
unfolding mark
occasions-FairAll = (
  (
    (omega arith, omega arith, tt),
    λ c e.
        subst (λ k. FairWrites k (took 1 ∷ write_again ∷ [])) (first_pending c e) (omega arith, tt),
  ),
  λ c e. ((tt, λ c' e'. tt), λ c' e'. tt),
)

-- A server with the listener on descriptor 3, which accepts a client, serves it, and closes it at the end
-- of its input.
abbrev accept_one : Wake
accept_one = record {
  source = 3;
  place = 1;
  event = record both_ways { writable = false };
  accepts = accepted 5 2 true ∷ [];
  reads = [];
  writes = [];
  deletes = true;
}

abbrev serve_one : Wake
serve_one = record {
  source = 5;
  place = 2;
  event = both_ways;
  accepts = [];
  reads = got (0x61 ∷ 0x62 ∷ []) ∷ read_again ∷ [];
  writes = took 1 ∷ write_again ∷ [];
  deletes = true;
}

abbrev end_one : Wake
end_one = record serve_one { reads = end_of_file ∷ []; writes = [] }

end_one-FairPeer : (c : Context) (peer : Peer) (s : Server) → FairPeer end_one c peer s
end_one-FairPeer c (listening prd pwr) s = tt
end_one-FairPeer c (connected k) s = (tt, λ k' e. tt)

abbrev descriptor : Option ℕ → ℕ
descriptor (some f) = f
descriptor none = 0

abbrev server_of : Run → Server
server_of (going s) = s
server_of fatal = started 3 1
server_of dangling = started 3 1

abbrev context_of : Option Context → Context
context_of (some c) = c
context_of none = record { fd = 0; peer = listening false false }

abbrev waits : List Wait
waits = ready (accept_one ∷ []) ∷ interrupted ∷ ready (serve_one ∷ []) ∷ ready (end_one ∷ []) ∷ []

abbrev accepting : Server
accepting = server_of (process_events (accept_one ∷ []) (started 3 1))

serve_one-FairWake : FairWake serve_one accepting
unfolding process_events process_event accept_client
serve_one-FairWake c e =
    subst (λ x. FairPeer serve_one x x.peer accepting) (ap context_of e) occasions-FairAll.0

abbrev serving : Server
serving = server_of (process_events (serve_one ∷ []) accepting)

serving-FairWaits : FairWaits (ready (end_one ∷ []) ∷ []) serving
unfolding process_events process_event accept_client after_client read_loop write_loop mark
    handle_client_io
serving-FairWaits =
    ((refl, tt, tt), (λ c e. end_one-FairPeer c c.peer serving, λ s e. tt), λ s e. tt)

accepting-FairWaits : FairWaits (ready (serve_one ∷ []) ∷ ready (end_one ∷ []) ∷ []) accepting
unfolding process_events process_event accept_client
accepting-FairWaits = (
  (refl, tt, tt),
  (serve_one-FairWake, λ s e. tt),
  λ s e. subst (λ s'. FairWaits (ready (end_one ∷ []) ∷ []) s') (ap server_of e) serving-FairWaits,
)

waits-FairWaits : FairWaits waits (started 3 1)
unfolding process_events process_event accept_client
waits-FairWaits = (
  (refl, tt, tt),
  (
    λ c e.
        subst (λ x. FairPeer accept_one x x.peer (started 3 1)) (ap context_of e) (refl, refl, tt),
    λ s e. tt,
  ),
  λ s e.
      subst (λ s'. FairWaits (ready (serve_one ∷ []) ∷ ready (end_one ∷ []) ∷ []) s')
        (ap server_of e) accepting-FairWaits,
)

main-Safe_example : SafeMain (main 2 true (some 3) true true true true 1 waits)
main-Safe_example =
    main-Safe 2 true (some 3) true true true true 1 waits
      (λ lfd e. subst (λ k. FairWaits waits (started k 1)) (ap descriptor e) waits-FairWaits)
