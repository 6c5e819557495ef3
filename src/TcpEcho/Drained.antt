-- ===== src/TcpEcho/Drained.antt =====
-- What `handle_client_io` leaves in the buffer of c/tcp_echo/main.c.
use model_lib.Common.{
  ◌-◌, ◌≤◌, ◌≡◌, refl, List, [], ◌∷◌, Bool, true, false, ltb, ◌==◌, if◌then◌else◌, Bool-cases, inl,
  inr, ◌⊎◌, arith, length, append-nil, sym, ◌∙◌,
}
use model_lib.TcpEcho.{
  Read, Write, took, write_again, write_error, Client, Served, running, closed, write_loop, emptied,
  then_on, read_part, write_part, handle_client_io,
}
use model_lib.TcpEcho.Intact.{
  Intact, IntactAfter, FairWrites, Fair, write_loop-Intact, read_part-Intact,
  handle_client_io-Intact,
}

-- Behind the write loop.
abbrev OverAfter : Served → Type 0
OverAfter (running c) = (c.pwr ≡ false) ⊎ (length c.buf ≤ c.wr)
OverAfter (closed c) = Unit

stopped :
    (c : Client)
    → OverAfter (running (if ltb c.wr (length c.buf) then record c { pwr = false } else c))
stopped c = elim (Bool-cases (ltb c.wr (length c.buf))) [
  | inl e ↦ rw e (inl refl)
  | inr e ↦ rw e (inr (ground arith))
]

write_loop-OverAfter : (ws : List Write) (c : Client) → OverAfter (write_loop ws c)
unfolding write_loop
write_loop-OverAfter [] c = stopped c
write_loop-OverAfter (took n ∷ ws) c = elim (Bool-cases (ltb c.wr (length c.buf))) [
  | inl e ↦ rw e (write_loop-OverAfter ws _)
  | inr e ↦ rw e (inr (ground arith))
]
write_loop-OverAfter (write_again ∷ ws) c = stopped c
write_loop-OverAfter (write_error ∷ ws) c = elim (Bool-cases (ltb c.wr (length c.buf))) [
  | inl e ↦ rw e tt
  | inr e ↦ rw e (inr (ground arith))
]

-- Behind the handler: the last `write` has been refused with EAGAIN, or the buffer is empty and all
-- that has been received has been sent.
abbrev pub DrainedAfter : Served → Type 0
DrainedAfter (running c) = (c.pwr ≡ false) ⊎ ((c.buf ≡ []) × (c.wr ≡ 0) × (c.sent ≡ c.received))
DrainedAfter (closed c) = Unit

emptied-DrainedAfter :
    (s : Served)
    → OverAfter s
    → IntactAfter s
    → IntactAfter (then_on (λ c. running (emptied c)) s)
    → DrainedAfter (then_on (λ c. running (emptied c)) s)
emptied-DrainedAfter (closed c) over h k = tt
emptied-DrainedAfter (running c) over h k = elim (Bool-cases (c.wr == length c.buf)) [
  | inl e ↦
      let k' : Intact (record c { wr = 0; buf = [] }) = rw e at k in
      rw e (inr (refl, refl, sym (append-nil c.sent) ∙ k'.echo))
  | inr e ↦ rw e (elim over [
    | inl blocked ↦ inl blocked
    | inr done ↦
        absurd (let eq : c.wr ≡ length c.buf = omega (arith, h.order) in ground (arith, eq))
  ])
]

-- The write loop runs if the flag is set.
flag_DrainedAfter :
    (b : Bool) (c : Client) (s : Served)
    → c.pwr ≡ b
    → OverAfter s
    → IntactAfter s
    → IntactAfter (if b then then_on (λ c'. running (emptied c')) s else running c)
    → DrainedAfter (if b then then_on (λ c'. running (emptied c')) s else running c)
flag_DrainedAfter true c s flag over h k = emptied-DrainedAfter s over h k
flag_DrainedAfter false c s flag over h k = inl flag

then_on-DrainedAfter :
    (ws : List Write) (s : Served)
    → IntactAfter s
    → IntactAfter (then_on (write_part ws) s)
    → ((c : Client) → s ≡ running c → FairWrites (length c.buf - c.wr) ws)
    → DrainedAfter (then_on (write_part ws) s)
then_on-DrainedAfter ws (running c) h k fair =
    flag_DrainedAfter c.pwr c (write_loop ws c) refl (write_loop-OverAfter ws c)
      (write_loop-Intact ws c h (fair c refl)) k
then_on-DrainedAfter ws (closed c) h k fair = tt

-- For any answers that a kernel may give, `handle_client_io` closes the client, or leaves its socket
-- marked as not writable, or has sent all that it has received and reset the buffer.
pub handle_client_io-DrainedAfter :
    (rs : List Read) (ws : List Write) (c : Client)
    → Intact c
    → Fair rs ws c
    → DrainedAfter (handle_client_io rs ws c)
unfolding handle_client_io
handle_client_io-DrainedAfter rs ws c h fair =
    then_on-DrainedAfter ws (read_part rs c) (read_part-Intact rs c h fair.0)
      (handle_client_io-Intact rs ws c h fair) fair.1
