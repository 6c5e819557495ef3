-- ===== src/TcpEcho/Server.antt =====
-- The whole server of c/tcp_echo/main.c: its contexts at their addresses, the listener, and the loop of
-- `main` over the events. What the kernel and the allocator answer is an argument.
pub mod Promises
pub mod Sound
pub mod Opened
pub mod Closed
pub mod Safe
use model_lib.Common.{
  ℕ, ◌==◌, Bool, true, false, not, ◌||◌, ◌&&◌, if◌then◌else◌, Option, none, some, List, [], ◌∷◌,
}
use model_lib.TcpEcho.{
  Read, Write, Client, new_client, Served, running, closed, handle_client_io, Event, mark,
}

-- `kind` with what it says of `data`: the listener (1) with its flags, or a client (2).
pub data Peer : Type 0 where
  listening : (prd pwr : Bool) → Peer
  connected : Client → Peer

-- `struct io_context`
pub record Context : Type 0 where
  pub fd : ℕ
  pub peer : Peer

-- The live contexts by address, the descriptors that are open, and for each descriptor that epoll watches
-- the address that its events carry. Only `epoll_ctl` changes what epoll watches.
pub record Server : Type 0 where
  pub contexts : ℕ → Option Context
  pub in_use : ℕ → Bool
  pub watched : ℕ → Option ℕ

abbrev pub set_at : {A : Type 0} → (ℕ → A) → ℕ → A → ℕ → A
set_at f i x j = if j == i then x else f j

-- What a call leaves: the server, `FATAL`, or an access to a context that is not live.
pub data Run : Type 0 where
  going : Server → Run
  fatal : Run
  dangling : Run

-- `add_epoll_ctx`, with the address that `malloc` gives.
abbrev pub add_epoll_ctx : (place fd : ℕ) → Peer → Server → Server
add_epoll_ctx place fd peer s = record s {
  contexts = set_at s.contexts place (some (record { fd = fd; peer = peer }));
  watched = set_at s.watched fd (some place);
}

-- `del_epoll_ctx`, where `deleted` says whether EPOLL_CTL_DEL succeeds.
unfoldable pub del_epoll_ctx : (deleted : Bool) → (place fd : ℕ) → Server → Run
del_epoll_ctx false place fd s = fatal
del_epoll_ctx true place fd s =
    going (record s { contexts = set_at s.contexts place none; watched = set_at s.watched fd none })

-- `close_client`
unfoldable pub close_client : (deleted : Bool) → (place fd : ℕ) → Server → Run
close_client deleted place fd s = elim (del_epoll_ctx deleted place fd s) [
  | going s' ↦ going (record s' { in_use = set_at s'.in_use fd false })
  | fatal ↦ fatal
  | dangling ↦ dangling
]

-- `accept4` with what follows it: a descriptor, the address for its context, and whether the options of
-- the socket and its registration succeed; EAGAIN; or another error.
pub data Accept : Type 0 where
  accepted : (fd place : ℕ) → (options : Bool) → Accept
  accept_again : Accept
  accept_error : Accept

-- `accepted`, then `handle_new_client`.
abbrev pub handle_new_client : (fd place : ℕ) → Server → Server
handle_new_client fd place s =
    add_epoll_ctx place fd (connected new_client) (record s { in_use = set_at s.in_use fd true })

abbrev pub set_peer : ℕ → Context → Peer → Server → Server
set_peer place c peer s = record s {
  contexts = set_at s.contexts place (some (record { fd = c.fd; peer = peer }));
}

-- `accept_client` for the listener `c` at `place`. When no answer is left, the kernel would block: EAGAIN.
unfoldable pub accept_client : List Accept → ℕ → Context → (pwr : Bool) → Server → Run
accept_client [] place c pwr s = going (set_peer place c (listening false pwr) s)
accept_client (accept_again ∷ rs) place c pwr s = going (set_peer place c (listening false pwr) s)
accept_client (accept_error ∷ rs) place c pwr s = fatal
accept_client (accepted fd at options ∷ rs) place c pwr s =
    let rest = accept_client rs place c pwr (handle_new_client fd at s) in
    if options then rest else fatal

-- One event of `epoll_wait`: the address that it carries, its bits, and the kernel's answers to the calls
-- that it leads to; `deletes` is that of EPOLL_CTL_DEL. `source` is the descriptor that the event comes
-- from, which the program does not see.
pub record Wake : Type 0 where
  pub source : ℕ
  pub place : ℕ
  pub event : Event
  pub accepts : List Accept
  pub reads : List Read
  pub writes : List Write
  pub deletes : Bool

-- The flags that `main` sets, whatever the kind of the context.
abbrev pub mark_peer : Event → Peer → Peer
mark_peer ev (listening prd pwr) =
    listening (if ev.readable || ev.peer_closed || ev.hangup || ev.error then true else prd)
      (if ev.writable || ev.hangup || ev.error then true else pwr)
mark_peer ev (connected k) = connected (mark ev k)

-- A client's context behind `handle_client_io`.
unfoldable pub after_client : (deleted : Bool) → ℕ → Context → Served → Server → Run
after_client deleted place c (running k) s = going (set_peer place c (connected k) s)
after_client deleted place c (closed k) s = close_client deleted place c.fd s

-- `process_io`, at the context `c`, with the kernel's answers that stand in `w`.
abbrev pub process_io : Wake → Context → Server → Run
process_io w c s = elim c.peer [
  | listening prd pwr ↦ accept_client w.accepts w.place c pwr s
  | connected k ↦ after_client w.deletes w.place c (handle_client_io w.reads w.writes k) s
]

-- One round of the loop over the events.
unfoldable pub process_event : Wake → Server → Run
process_event w s = elim (s.contexts w.place) [
  | none ↦ dangling
  | some c ↦
      let marked : Context = record { fd = c.fd; peer = mark_peer w.event c.peer } in
      process_io w marked (set_peer w.place c marked.peer s)
]

-- `for (int i = 0; i < n; i++)`
unfoldable pub process_events : List Wake → Server → Run
process_events [] s = going s
process_events (w ∷ ws) s = elim (process_event w s) [
  | going s' ↦ process_events ws s'
  | fatal ↦ fatal
  | dangling ↦ dangling
]

-- `epoll_wait`: events, EINTR, or another error.
pub data Wait : Type 0 where
  ready : List Wake → Wait
  interrupted : Wait
  wait_error : Wait

-- `for (;;)`, for as long as the kernel has been asked.
unfoldable pub event_loop : List Wait → Server → Run
event_loop [] s = going s
event_loop (interrupted ∷ qs) s = event_loop qs s
event_loop (wait_error ∷ qs) s = fatal
event_loop (ready ws ∷ qs) s = elim (process_events ws s) [
  | going s' ↦ event_loop qs s'
  | fatal ↦ fatal
  | dangling ↦ dangling
]

-- The server as `main` enters its loop: with the listener's descriptor and context.
abbrev pub started : (lfd place : ℕ) → Server
started lfd place =
    add_epoll_ctx place lfd (listening false false)
      (record { contexts = λ p. none; in_use = λ f. f == lfd; watched = λ f. none })

-- `listen_port`: the answers of `socket`, `bind`, `setsockopt` and `listen`; `none` is `FATAL`.
abbrev pub listen_port : (socket : Option ℕ) → (bound options listens : Bool) → Option ℕ
listen_port none bound options listens = none
listen_port (some fd) bound options listens = if bound && options && listens then some fd else none

-- The end of `main`: the return of 1, or what its loop comes to.
pub data Main : Type 0 where
  usage : Main
  served : Run → Main

-- `main`, with the answers of `epoll_create1` and of the calls of `listen_port`, whether the listener can
-- be watched, the address for its context, and what `epoll_wait` answers.
unfoldable pub main :
    (argc : ℕ)
    → (epoll : Bool) → (socket : Option ℕ) → (bound options listens watches : Bool) → ℕ
    → List Wait
    → Main
main argc epoll socket bound options listens watches place waits =
    if not (argc == 2)
    then usage
    else if not epoll
    then served fatal
    else elim (listen_port socket bound options listens) [
      | none ↦ served fatal
      | some lfd ↦ (if watches then served (event_loop waits (started lfd place)) else served fatal)
    ]
