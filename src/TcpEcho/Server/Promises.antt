-- ===== src/TcpEcho/Server/Promises.antt =====
-- What the kernel and the allocator promise to c/tcp_echo/main.c.
use model_lib.Common.{ℕ, ◌≡◌, ◌≢◌, false, none, some, List, [], ◌∷◌}
use model_lib.TcpEcho.{mark}
use model_lib.TcpEcho.Intact.{Fair}
use model_lib.TcpEcho.Server.{
  Peer, listening, connected, Context, Server, going, Accept, accepted, accept_again, accept_error,
  handle_new_client, set_peer, Wake, mark_peer, process_event, process_events, Wait, ready,
  interrupted, wait_error,
}

-- `accept4` gives a descriptor that is not open, and `malloc` an address that is not live.
abbrev pub FairAccepts : List Accept → Server → Type 0
FairAccepts [] s = Unit
FairAccepts (accepted fd place options ∷ rs) s =
    (s.in_use fd ≡ false)
    × (s.contexts place ≡ none)
    × FairAccepts rs (handle_new_client fd place s)
FairAccepts (accept_again ∷ rs) s = Unit
FairAccepts (accept_error ∷ rs) s = Unit

-- The answers to the calls that an event leads to, by the kind of its context.
abbrev pub FairPeer : Wake → Context → Peer → Server → Type 0
FairPeer w c (listening prd pwr) s =
    FairAccepts w.accepts (set_peer w.place c (mark_peer w.event (listening prd pwr)) s)
FairPeer w c (connected k) s = Fair w.reads w.writes (mark w.event k)

abbrev pub FairWake : Wake → Server → Type 0
FairWake w s = (c : Context) → s.contexts w.place ≡ some c → FairPeer w c c.peer s

abbrev pub FairEvents : List Wake → Server → Type 0
FairEvents [] s = Unit
FairEvents (w ∷ ws) s =
    FairWake w s × ((s' : Server) → process_event w s ≡ going s' → FairEvents ws s')

-- No later event comes from the descriptor.
abbrev pub Differs : ℕ → List Wake → Type 0
Differs f [] = Unit
Differs f (w ∷ ws) = (f ≢ w.source) × Differs f ws

-- `epoll_wait` reports descriptors that are watched at the call, each once, with the address that they
-- were registered with.
abbrev pub Reported : List Wake → Server → Type 0
Reported [] s = Unit
Reported (w ∷ ws) s = (s.watched w.source ≡ some w.place) × Differs w.source ws × Reported ws s

abbrev pub FairWaits : List Wait → Server → Type 0
FairWaits [] s = Unit
FairWaits (interrupted ∷ qs) s = FairWaits qs s
FairWaits (wait_error ∷ qs) s = Unit
FairWaits (ready ws ∷ qs) s =
    Reported ws s
    × FairEvents ws s
    × ((s' : Server) → process_events ws s ≡ going s' → FairWaits qs s')
