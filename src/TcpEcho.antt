-- ===== src/TcpEcho.antt =====
-- c/tcp_echo/main.c: an echo server on edge-triggered epoll. `handle_client_io` and the part of
-- `main` that turns an event into its flags. The kernel's answers to `read` and `write` are
-- arguments, in the order in which the calls are made.
pub mod Intact
pub mod Drained
pub mod Server
mod Examples
use model_lib.Common.{
  ℕ, ◌+◌, ◌-◌, List, [], ◌∷◌, ◌++◌, Bool, true, false, ◌||◌, ◌==◌, ltb, if◌then◌else◌, length, take,
  drop,
}

abbrev pub client_buf_size : ℕ
client_buf_size = 4096

-- `read`: bytes, EAGAIN, 0 at the end of the stream, or another error.
pub data Read : Type 0 where
  got : List ℕ → Read
  read_again : Read
  end_of_file : Read
  read_error : Read

-- `write`: the number of bytes taken, EAGAIN, or another error.
pub data Write : Type 0 where
  took : ℕ → Write
  write_again : Write
  write_error : Write

-- `struct io_context` of a client with its `struct client`: `buf` is `buf[0 .. sz)`. `received` and
-- `sent` are what the socket has handed over and what it has taken so far.
pub record Client : Type 0 where
  pub prd : Bool
  pub pwr : Bool
  pub buf : List ℕ
  pub wr : ℕ
  pub received : List ℕ
  pub sent : List ℕ

-- `handle_new_client`, with `add_epoll_ctx`
abbrev pub new_client : Client
new_client = record { prd = false; pwr = false; buf = []; wr = 0; received = []; sent = [] }

-- What is left of a client: it is served on, or `close_client` has freed it.
pub data Served : Type 0 where
  running : Client → Served
  closed : Client → Served

-- `while (c->sz < CLIENT_BUF_SIZE)`. When no answer is left, the kernel would block: EAGAIN.
unfoldable pub read_loop : List Read → Client → Served
read_loop [] c =
    running (if ltb (length c.buf) client_buf_size then record c { prd = false } else c)
read_loop (got bytes ∷ rs) c =
    let rest = read_loop rs (record c { buf = c.buf ++ bytes; received = c.received ++ bytes }) in
    if ltb (length c.buf) client_buf_size then rest else running c
read_loop (read_again ∷ rs) c =
    running (if ltb (length c.buf) client_buf_size then record c { prd = false } else c)
read_loop (end_of_file ∷ rs) c = if ltb (length c.buf) client_buf_size then closed c else running c
read_loop (read_error ∷ rs) c = if ltb (length c.buf) client_buf_size then closed c else running c

-- `while (c->wr < c->sz)`
unfoldable pub write_loop : List Write → Client → Served
write_loop [] c = running (if ltb c.wr (length c.buf) then record c { pwr = false } else c)
write_loop (took n ∷ ws) c =
    let rest =
      write_loop ws (record c { wr = c.wr + n; sent = c.sent ++ take n (drop c.wr c.buf) }) in
    if ltb c.wr (length c.buf) then rest else running c
write_loop (write_again ∷ ws) c =
    running (if ltb c.wr (length c.buf) then record c { pwr = false } else c)
write_loop (write_error ∷ ws) c = if ltb c.wr (length c.buf) then closed c else running c

-- `if (c->wr == c->sz) { c->wr = 0; c->sz = 0; }`
abbrev pub emptied : Client → Client
emptied c = if c.wr == length c.buf then record c { wr = 0; buf = [] } else c

-- The step behind a loop, unless the client is closed.
abbrev pub then_on : (Client → Served) → Served → Served
then_on f (running c) = f c
then_on f (closed c) = closed c

-- The two `if`s of `handle_client_io`.
abbrev pub read_part : List Read → Client → Served
read_part rs c = if c.prd then read_loop rs c else running c

abbrev pub write_part : List Write → Client → Served
write_part ws c =
    if c.pwr then then_on (λ c'. running (emptied c')) (write_loop ws c) else running c

unfoldable pub handle_client_io : List Read → List Write → Client → Served
handle_client_io rs ws c = then_on (write_part ws) (read_part rs c)

-- The bits of `ev` that `main` tests.
pub record Event : Type 0 where
  pub readable : Bool
  pub writable : Bool
  pub peer_closed : Bool
  pub error : Bool
  pub hangup : Bool

-- `READ_EVENTS` and `WRITE_EVENTS`: the flags that an event sets.
unfoldable pub mark : Event → Client → Client
mark ev c = record c {
  prd = if ev.readable || ev.peer_closed || ev.hangup || ev.error then true else c.prd;
  pwr = if ev.writable || ev.hangup || ev.error then true else c.pwr;
}

-- One round of the loop over events, for a client (`kind == 2`), with the kernel's answers.
pub record Occasion : Type 0 where
  pub event : Event
  pub reads : List Read
  pub writes : List Write

unfoldable pub serve : Occasion → Client → Served
serve o c = handle_client_io o.reads o.writes (mark o.event c)

-- The events of one client in their order; none comes once it is closed.
unfoldable pub serve_all : List Occasion → Client → Served
serve_all [] c = running c
serve_all (o ∷ os) c = then_on (serve_all os) (serve o c)
