-- ===== src/TcpEcho/Intact.antt =====
-- The bytes of a client of c/tcp_echo/main.c: received, buffered and sent.
use model_lib.Common.{
  ℕ, zero, suc, ◌+◌, ◌-◌, ◌≤◌, ◌<◌, ◌≡◌, refl, sym, ap, ◌∙◌, List, [], ◌∷◌, ◌++◌, append_assoc,
  Bool, true, false, ltb, ◌==◌, ==→eq, if◌then◌else◌, Bool-cases, inl, inr, arith, length,
  length-append, take, drop,
}
use model_lib.TcpEcho.{
  client_buf_size, Read, got, read_again, end_of_file, read_error, Write, took, write_again,
  write_error, Client, Served, running, closed, read_loop, write_loop, emptied, then_on, read_part,
  write_part, handle_client_io, mark, Occasion, serve, serve_all, new_client,
}

-- What the manual pages promise: `read` hands over one byte at least and no more than it was asked
-- for, `write` takes no more than it was given.
abbrev pub FairReads : ℕ → List Read → Type 0
FairReads sz [] = Unit
FairReads sz (got bytes ∷ rs) =
    (0 < length bytes) × (sz + length bytes ≤ client_buf_size) × FairReads (sz + length bytes) rs
FairReads sz (_ ∷ rs) = Unit

abbrev pub FairWrites : ℕ → List Write → Type 0
FairWrites left [] = Unit
FairWrites left (took n ∷ ws) = (n ≤ left) × FairWrites (left - n) ws
FairWrites left (_ ∷ ws) = Unit

-- What has been sent, with what the buffer still holds, is what has been received; the indices lie
-- in the buffer.
pub record Intact (c : Client) : Type 0 where
  pub order : c.wr ≤ length c.buf
  pub fits : length c.buf ≤ client_buf_size
  pub echo : c.sent ++ drop c.wr c.buf ≡ c.received

-- Of a served client, whether it is closed or not.
abbrev pub IntactAfter : Served → Type 0
IntactAfter (running c) = Intact c
IntactAfter (closed c) = Intact c

drop-append : (n : ℕ) (xs ys : List ℕ) → n ≤ length xs → drop n (xs ++ ys) ≡ drop n xs ++ ys
drop-append zero xs ys le = refl
drop-append (suc n) [] ys le = absurd (omega arith)
drop-append (suc n) (x ∷ xs) ys le = drop-append n xs ys (omega arith)

take-drop : (n : ℕ) (xs : List ℕ) → take n xs ++ drop n xs ≡ xs
take-drop zero xs = refl
take-drop (suc n) [] = refl
take-drop (suc n) (x ∷ xs) = ap (λ ys. x ∷ ys) (take-drop n xs)

drop_nil : (n : ℕ) → drop {A = ℕ} n [] ≡ []
drop_nil zero = refl
drop_nil (suc n) = refl

drop-drop : (m n : ℕ) (xs : List ℕ) → drop n (drop m xs) ≡ drop (m + n) xs
drop-drop zero n xs = let e : n ≡ 0 + n = omega arith in ap (λ k. drop k xs) e
drop-drop (suc m) n [] = drop_nil n ∙ sym (drop_nil (suc m + n))
drop-drop (suc m) n (x ∷ xs) =
    let e : suc (m + n) ≡ suc m + n = omega arith in drop-drop m n xs ∙ ap (λ k. drop k (x ∷ xs)) e

drop_all : (xs : List ℕ) → drop (length xs) xs ≡ []
drop_all [] = refl
drop_all (x ∷ xs) = drop_all xs

Intact-got :
    (c : Client) (bytes : List ℕ)
    → Intact c
    → length c.buf + length bytes ≤ client_buf_size
    → Intact (record c { buf = c.buf ++ bytes; received = c.received ++ bytes })
Intact-got c bytes h fit = record {
  order = omega (arith, h.order, length-append {0} c.buf bytes);
  fits = omega (arith, length-append {0} c.buf bytes);
  echo =
      ap (λ ys. c.sent ++ ys) (drop-append c.wr c.buf bytes h.order)
      ∙ sym (append_assoc c.sent (drop c.wr c.buf) bytes)
      ∙ ap (λ ys. ys ++ bytes) h.echo;
}

Intact-took :
    (c : Client) (n : ℕ)
    → Intact c
    → n ≤ length c.buf - c.wr
    → Intact (record c { wr = c.wr + n; sent = c.sent ++ take n (drop c.wr c.buf) })
Intact-took c n h le = record {
  order = omega (arith, h.order);
  fits = h.fits;
  echo =
      append_assoc c.sent (take n (drop c.wr c.buf)) (drop (c.wr + n) c.buf)
      ∙ ap (λ ys. c.sent ++ (take n (drop c.wr c.buf) ++ ys)) (sym (drop-drop c.wr n c.buf))
      ∙ ap (λ ys. c.sent ++ ys) (take-drop n (drop c.wr c.buf))
      ∙ h.echo;
}

Intact-emptied : (c : Client) → Intact c → Intact (emptied c)
Intact-emptied c h = elim (Bool-cases (c.wr == length c.buf)) [
  | inr e ↦ rw e h
  | inl e ↦ rw e (record {
    order = omega arith;
    fits = omega arith;
    echo =
        ap (λ ys. c.sent ++ ys)
          (sym (ap (λ k. drop k c.buf) (==→eq c.wr (length c.buf) e) ∙ drop_all c.buf))
        ∙ h.echo;
  })
]

-- Only the flags differ.
Intact-stop_reading :
    (c : Client) (b : Bool) → Intact c → Intact (if b then record c { prd = false } else c)
Intact-stop_reading c true h = record { order = h.order; fits = h.fits; echo = h.echo }
Intact-stop_reading c false h = h

Intact-stop_writing :
    (c : Client) (b : Bool) → Intact c → Intact (if b then record c { pwr = false } else c)
Intact-stop_writing c true h = record { order = h.order; fits = h.fits; echo = h.echo }
Intact-stop_writing c false h = h

IntactAfter-if :
    (b : Bool) (s t : Served) → IntactAfter s → IntactAfter t → IntactAfter (if b then s else t)
IntactAfter-if true s t h k = h
IntactAfter-if false s t h k = k

read_loop-Intact :
    (rs : List Read) (c : Client)
    → Intact c
    → FairReads (length c.buf) rs
    → IntactAfter (read_loop rs c)
unfolding read_loop
read_loop-Intact [] c h fair = Intact-stop_reading c _ h
read_loop-Intact (got bytes ∷ rs) c h fair =
    IntactAfter-if (ltb (length c.buf) client_buf_size) _ _
      (read_loop-Intact rs _ (Intact-got c bytes h fair.1)
        (rw (length-append {0} c.buf bytes) fair.2))
      h
read_loop-Intact (read_again ∷ rs) c h fair = Intact-stop_reading c _ h
read_loop-Intact (end_of_file ∷ rs) c h fair =
    IntactAfter-if (ltb (length c.buf) client_buf_size) _ _ h h
read_loop-Intact (read_error ∷ rs) c h fair =
    IntactAfter-if (ltb (length c.buf) client_buf_size) _ _ h h

pub write_loop-Intact :
    (ws : List Write) (c : Client)
    → Intact c
    → FairWrites (length c.buf - c.wr) ws
    → IntactAfter (write_loop ws c)
unfolding write_loop
write_loop-Intact [] c h fair = Intact-stop_writing c _ h
write_loop-Intact (took n ∷ ws) c h fair =
    let left : length c.buf - c.wr - n ≡ length c.buf - (c.wr + n) = omega arith in
    IntactAfter-if (ltb c.wr (length c.buf)) _ _
      (write_loop-Intact ws _ (Intact-took c n h fair.0) (rw left at fair.1)) h
write_loop-Intact (write_again ∷ ws) c h fair = Intact-stop_writing c _ h
write_loop-Intact (write_error ∷ ws) c h fair = IntactAfter-if (ltb c.wr (length c.buf)) _ _ h h

then_on-Intact :
    (f : Client → Served) (s : Served)
    → IntactAfter s
    → ((c : Client) → s ≡ running c → Intact c → IntactAfter (f c))
    → IntactAfter (then_on f s)
then_on-Intact f (running c) h step = step c refl h
then_on-Intact f (closed c) h step = h

-- The answers of the kernel to one event, the ones to `write` after those to `read`.
abbrev pub Fair : List Read → List Write → Client → Type 0
Fair rs ws c =
    FairReads (length c.buf) rs
    × ((c' : Client) → read_part rs c ≡ running c' → FairWrites (length c'.buf - c'.wr) ws)

pub read_part-Intact :
    (rs : List Read) (c : Client)
    → Intact c
    → FairReads (length c.buf) rs
    → IntactAfter (read_part rs c)
read_part-Intact rs c h fair = IntactAfter-if c.prd _ _ (read_loop-Intact rs c h fair) h

write_part-Intact :
    (ws : List Write) (c : Client)
    → Intact c
    → FairWrites (length c.buf - c.wr) ws
    → IntactAfter (write_part ws c)
write_part-Intact ws c h fair =
    IntactAfter-if c.pwr _ _
      (then_on-Intact _ (write_loop ws c) (write_loop-Intact ws c h fair)
        (λ c' e keep. Intact-emptied c' keep))
      h

-- For any answers that a kernel may give to `read` and `write`, `handle_client_io` keeps the buffer's
-- indices in bounds, and what it has sent, followed by what the buffer holds, is exactly what it has
-- received, whether it goes on or closes the client.
pub handle_client_io-Intact :
    (rs : List Read) (ws : List Write) (c : Client)
    → Intact c
    → Fair rs ws c
    → IntactAfter (handle_client_io rs ws c)
unfolding handle_client_io
handle_client_io-Intact rs ws c h fair =
    then_on-Intact (write_part ws) (read_part rs c) (read_part-Intact rs c h fair.0)
      (λ c' e keep. write_part-Intact ws c' keep (fair.1 c' e))

-- The answers to a series of events, each at the client that the one before has left.
abbrev pub FairAll : List Occasion → Client → Type 0
FairAll [] c = Unit
FairAll (o ∷ os) c =
    Fair o.reads o.writes (mark o.event c)
    × ((c' : Client) → serve o c ≡ running c' → FairAll os c')

pub Intact-mark : (o : Occasion) (c : Client) → Intact c → Intact (mark o.event c)
unfolding mark
Intact-mark o c h = record { order = h.order; fits = h.fits; echo = h.echo }

serve_all-Intact_from :
    (os : List Occasion) (c : Client) → Intact c → FairAll os c → IntactAfter (serve_all os c)
unfolding serve_all serve
serve_all-Intact_from [] c h fair = h
serve_all-Intact_from (o ∷ os) c h fair =
    then_on-Intact (serve_all os) (serve o c)
      (handle_client_io-Intact o.reads o.writes (mark o.event c) (Intact-mark o c h) fair.0)
      (λ c' e keep. serve_all-Intact_from os c' keep (fair.1 c' e))

-- After any series of events of a new client, with any answers that a kernel may give, the bytes sent
-- back, followed by those in the buffer, are exactly the bytes received, and the buffer's indices are
-- in bounds.
pub serve_all-Intact :
    (os : List Occasion) → FairAll os new_client → IntactAfter (serve_all os new_client)
serve_all-Intact os fair =
    serve_all-Intact_from os new_client
      (record { order = omega arith; fits = omega arith; echo = refl }) fair
