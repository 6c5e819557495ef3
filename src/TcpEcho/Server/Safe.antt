-- ===== src/TcpEcho/Server/Safe.antt =====
-- Runs of the loop of c/tcp_echo/main.c under a kernel and an allocator that keep their promises.
use model_lib.Common.{
  ℕ, ◌==◌, ◌≡◌, ◌≢◌, ◌⊎◌, refl, sym, ap, ◌∙◌, Bool, Bool-cases, ne→==-false, inl, inr, true, false,
  if◌then◌else◌, Option, none, some, List, [], ◌∷◌, ◌&&◌, ◌||◌, arith,
}
use model_lib.TcpEcho.{Served, running, closed, new_client, handle_client_io, mark}
use model_lib.TcpEcho.Intact.{Intact, IntactAfter, Intact-mark, handle_client_io-Intact}
use model_lib.TcpEcho.Server.{
  Peer, listening, connected, Context, Server, Run, going, fatal, dangling, Accept, accepted,
  accept_again, accept_error, accept_client, handle_new_client, set_peer, Wake, mark_peer,
  after_client, close_client, del_epoll_ctx, process_event, process_events, Wait, ready,
  interrupted, wait_error, event_loop, started, Main, usage, served, main,
}
use model_lib.TcpEcho.Server.Sound.{Sound, set_at-same, set_at-other, apart_free, set_peer-Sound}
use model_lib.TcpEcho.Server.Opened.{handle_new_client-Sound, started-Sound}
use model_lib.TcpEcho.Server.Closed.{without-Sound}
use model_lib.TcpEcho.Server.Promises.{
  FairAccepts, FairPeer, FairWake, FairEvents, Differs, Reported, FairWaits,
}

-- What epoll watches of the descriptors in `P` is still watched, with the same address.
abbrev Keeps : (ℕ → Type 0) → Server → Server → Type 0
Keeps P s s' = (f p : ℕ) → P f → s.watched f ≡ some p → s'.watched f ≡ some p

-- A run that has not used a context behind its end: `FATAL`, or a sound server that watches what was
-- watched of the descriptors in `P`.
abbrev SafeFrom : (ℕ → Type 0) → Server → Run → Type 0
SafeFrom P s (going s') = Sound s' × Keeps P s s'
SafeFrom P s fatal = Unit
SafeFrom P s dangling = ⊥

abbrev pub Safe : Run → Type 0
Safe (going s) = Sound s
Safe fatal = Unit
Safe dangling = ⊥

weaken :
    (P Q : ℕ → Type 0) (s s' : Server) (r : Run)
    → ((f p : ℕ) → Q f → s.watched f ≡ some p → P f × (s'.watched f ≡ some p))
    → SafeFrom P s' r
    → SafeFrom Q s r
weaken P Q s s' (going t) g h = (h.0, λ f p q e. let (r, e') = g f p q e in h.1 f p r e')
weaken P Q s s' fatal g h = h
weaken P Q s s' dangling g h = h

abbrev Any : ℕ → Type 0
Any f = Unit

accept_client-Safe :
    (rs : List Accept) (place : ℕ) (c : Context) (m : Peer) (pwr : Bool) (s : Server)
    → s.contexts place ≡ some (record { fd = c.fd; peer = m })
    → FairAccepts rs s
    → Sound s
    → SafeFrom Any s (accept_client rs place c pwr s)
unfolding accept_client
accept_client-Safe [] place c m pwr s here fair h =
    (set_peer-Sound s place _ (listening false pwr) here tt h, λ f p q e. e)
accept_client-Safe (accept_again ∷ rs) place c m pwr s here fair h =
    (set_peer-Sound s place _ (listening false pwr) here tt h, λ f p q e. e)
accept_client-Safe (accept_error ∷ rs) place c m pwr s here fair h = tt
accept_client-Safe (accepted fd at false ∷ rs) place c m pwr s here fair h = tt
accept_client-Safe (accepted fd at true ∷ rs) place c m pwr s here (unused, free, fair) h =
    let s' = handle_new_client fd at s in
    let new_intact : Intact new_client = record {
      order = omega arith;
      fits = omega arith;
      echo = refl;
    } in
    let here' : s'.contexts place ≡ some (record { fd = c.fd; peer = m }) =
      rw (apart_free s.contexts at place _ free here) here in
    weaken Any Any s s' _
      (λ f p q e.
        let (d, live, same) = h.reports f p e in
        let other =
          ne→==-false f fd
            (λ u. absurd (ground (arith, (h.owns p d live).0, ap s.in_use (same ∙ u), unused))) in
        (tt, set_at-other s.watched fd f (some at) other ∙ e))
      (accept_client-Safe rs place c m pwr s' here' fair
        (handle_new_client-Sound s fd at free unused new_intact h))

after_client-Safe :
    (deleted : Bool) (s : Server) (place : ℕ) (c : Context) (r : Served)
    → s.contexts place ≡ some c
    → IntactAfter r
    → Sound s
    → SafeFrom (λ f. f ≢ c.fd) s (after_client deleted place c r s)
unfolding after_client close_client del_epoll_ctx
after_client-Safe deleted s place c (running k) here intact h =
    (set_peer-Sound s place c (connected k) here intact h, λ f p q e. e)
after_client-Safe false s place c (closed k) here intact h = tt
after_client-Safe true s place c (closed k) here intact h = (
  without-Sound s place c here h,
  λ f p q e. set_at-other s.watched c.fd f none (ne→==-false f c.fd q) ∙ e,
)

process_event-Safe_at :
    (w : Wake) (s : Server) (fd : ℕ) (peer : Peer)
    → s.contexts w.place ≡ some (record { fd = fd; peer = peer })
    → FairPeer w (record { fd = fd; peer = peer }) peer s
    → Sound s
    → SafeFrom (λ f. f ≢ fd) s (process_event w s)
unfolding process_event
process_event-Safe_at w s fd (listening prd pwr) here fair h =
    let c : Context = record { fd = fd; peer = listening prd pwr } in
    let m = mark_peer w.event (listening prd pwr) in
    let marked : Context = record { fd = fd; peer = m } in
    let s' = set_peer w.place c m s in
    rw (process_event, here)
      (weaken Any (λ f. f ≢ fd) s s' _ (λ f p q e. (tt, e))
        (accept_client-Safe w.accepts w.place marked m
          (if w.event.writable || w.event.hangup || w.event.error then true else pwr) s'
          (set_at-same s.contexts w.place _) fair (set_peer-Sound s w.place c m here tt h)))
process_event-Safe_at w s fd (connected k) here fair h =
    let c : Context = record { fd = fd; peer = connected k } in
    let intact : Intact (mark w.event k) =
      Intact-mark (record { event = w.event; reads = w.reads; writes = w.writes }) k
        (h.peers w.place c here) in
    let marked : Context = record { fd = fd; peer = connected (mark w.event k) } in
    let s' = set_peer w.place c marked.peer s in
    rw (process_event, here)
      (after_client-Safe w.deletes s' w.place marked
        (handle_client_io w.reads w.writes (mark w.event k)) (set_at-same s.contexts w.place _)
        (handle_client_io-Intact w.reads w.writes (mark w.event k) intact fair)
        (set_peer-Sound s w.place c marked.peer here intact h))

-- An event of a descriptor that epoll watches is at a live context, since a context that ends is
-- watched no longer.
process_event-Safe :
    (w : Wake) (s : Server)
    → s.watched w.source ≡ some w.place
    → FairWake w s
    → Sound s
    → SafeFrom (λ f. f ≢ w.source) s (process_event w s)
process_event-Safe w s watched fair h =
    let (c, here, same) = h.reports w.source w.place watched in
    weaken (λ f. f ≢ c.fd) (λ f. f ≢ w.source) s s _ (λ f p q e. (λ u. q (u ∙ same), e))
      (process_event-Safe_at w s c.fd c.peer here (fair c here) h)

-- The later events of a batch are still of watched descriptors.
Reported-kept :
    (ws : List Wake) (s s' : Server) (g : ℕ)
    → Keeps (λ f. f ≢ g) s s'
    → Differs g ws
    → Reported ws s
    → Reported ws s'
Reported-kept [] s s' g keep d h = tt
Reported-kept (w ∷ ws) s s' g keep (ne, d) (watched, apart, h) =
    (keep w.source w.place (λ e. ne (sym e)) watched, apart, Reported-kept ws s s' g keep d h)

Run-cases : (r : Run) → ((s : Server) × (r ≡ going s)) ⊎ (r ≡ fatal) ⊎ (r ≡ dangling)
Run-cases (going s) = inl (s, refl)
Run-cases fatal = inr (inl refl)
Run-cases dangling = inr (inr refl)

process_events-Safe :
    (ws : List Wake) (s : Server)
    → Reported ws s
    → FairEvents ws s
    → Sound s
    → Safe (process_events ws s)
unfolding process_events
process_events-Safe [] s reported fair h = h
process_events-Safe (w ∷ ws) s (watched, differs, later) (fair, fair_later) h =
    let safe = process_event-Safe w s watched fair h in
    elim (Run-cases (process_event w s)) [
      | inl (s', e) ↦
          let (sound, kept) : SafeFrom (λ f. f ≢ w.source) s (going s') = rw e at safe in
          rw (process_events, e)
            (process_events-Safe ws s' (Reported-kept ws s s' w.source kept differs later)
              (fair_later s' e) sound)
      | inr (inl e) ↦ rw (process_events, e) tt
      | inr (inr e) ↦ absurd (rw e at safe)
    ]

event_loop-Safe : (qs : List Wait) (s : Server) → FairWaits qs s → Sound s → Safe (event_loop qs s)
unfolding event_loop
event_loop-Safe [] s fair h = h
event_loop-Safe (interrupted ∷ qs) s fair h = event_loop-Safe qs s fair h
event_loop-Safe (wait_error ∷ qs) s fair h = tt
event_loop-Safe (ready ws ∷ qs) s (reported, fair, later) h =
    let safe = process_events-Safe ws s reported fair h in
    elim (Run-cases (process_events ws s)) [
      | inl (s', e) ↦ rw (event_loop, e) (event_loop-Safe qs s' (later s' e) (rw e at safe))
      | inr (inl e) ↦ rw (event_loop, e) tt
      | inr (inr e) ↦ absurd (rw e at safe)
    ]

-- The same of a whole run of `main`.
abbrev pub SafeMain : Main → Type 0
SafeMain usage = Unit
SafeMain (served r) = Safe r

-- Under a kernel that reports descriptors which epoll watches, each once in a batch and with the address
-- that it was registered with, gives descriptors that are not open and answers `read` and `write` within
-- their lengths, and an allocator that gives free addresses, `main` never uses a context behind its end,
-- whichever of the calls fail, EPOLL_CTL_DEL included; whenever its loop goes on, the open
-- descriptors are exactly those of the live contexts, each with its own, and every client has sent back
-- what it has received, up to what its buffer holds.
pub main-Safe :
    (argc : ℕ) (epoll : Bool) (socket : Option ℕ) (bound options listens watches : Bool) (place : ℕ)
    (qs : List Wait)
    → ((lfd : ℕ) → socket ≡ some lfd → FairWaits qs (started lfd place))
    → SafeMain (main argc epoll socket bound options listens watches place qs)
unfolding main
main-Safe argc epoll none bound options listens watches place qs fair =
    elim (Bool-cases (argc == 2)) [
      | inr e ↦ rw e tt
      | inl e ↦ elim (Bool-cases epoll) [ inr e' ↦ rw (e, e') tt | inl e' ↦ rw (e, e') tt ]
    ]
main-Safe argc epoll (some lfd) bound options listens watches place qs fair =
    let safe = event_loop-Safe qs (started lfd place) (fair lfd refl) (started-Sound lfd place) in
    elim (Bool-cases (argc == 2)) [
      | inr e ↦ rw e tt
      | inl e ↦ elim (Bool-cases epoll) [
        | inr e' ↦ rw (e, e') tt
        | inl e' ↦ elim (Bool-cases (bound && options && listens)) [
          | inr q ↦ rw (e, e', q) tt
          | inl q ↦ elim (Bool-cases watches) [
            | inr q' ↦ rw (e, e', q, q') tt
            | inl q' ↦ rw (e, e', q, q') safe
          ]
        ]
      ]
    ]
