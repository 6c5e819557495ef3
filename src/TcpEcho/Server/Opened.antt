-- ===== src/TcpEcho/Server/Opened.antt =====
-- What holds of the contexts of c/tcp_echo/main.c at the start of its loop, and with a new client.
use model_lib.Common.{
  ℕ, ◌==◌, ◌≡◌, ◌≢◌, sym, ap, ◌∙◌, subst, Bool, Bool-cases, ==→eq, ==-refl, ne→==-false, inl, inr,
  true, false, Option, none, some, arith,
}
use model_lib.TcpEcho.{new_client}
use model_lib.TcpEcho.Server.{
  listening, connected, Context, Server, set_at, handle_new_client, started,
}
use model_lib.TcpEcho.Server.Sound.{
  PeerIntact, Sound, set_at-same, set_at-other, some-injective, written, old, read_at, apart_free,
}

set_at-true : (f : ℕ → Bool) (i j : ℕ) → f j ≡ true → set_at f i true j ≡ true
set_at-true f i j h = ground arith

-- A new context at a free address, with a descriptor that was not open.
pub handle_new_client-Sound :
    (s : Server) (fd p : ℕ)
    → s.contexts p ≡ none
    → s.in_use fd ≡ false
    → PeerIntact (connected new_client)
    → Sound s
    → Sound (handle_new_client fd p s)
handle_new_client-Sound s fd p free unused intact h =
    let x : Context = record { fd = fd; peer = connected new_client } in
    let clash : (q : ℕ) (d : Context) → s.contexts q ≡ some d → fd ≢ d.fd =
      λ q d g e. absurd (ground (arith, (h.owns q d g).0, sym (ap s.in_use e), unused)) in
    record {
      owns = λ q d g. elim (read_at s.contexts p x q d g) [
        | written e e' ↦
            subst
              (λ f. (set_at s.in_use fd true f ≡ true) × (set_at s.watched fd (some p) f ≡ some q))
              (ap (λ y. y.fd) e')
              (set_at-same s.in_use fd true, set_at-same s.watched fd (some p) ∙ ap some (sym e))
        | old e g' ↦
            let (u, v) = h.owns q d g' in
            let fresh = ne→==-false d.fd fd (λ r. clash q d g' (sym r)) in
            (set_at-true s.in_use fd d.fd u, set_at-other s.watched fd d.fd (some p) fresh ∙ v)
      ];
      apart = λ q r d d' g g' e. elim (read_at s.contexts p x q d g) [
        | written u u' ↦ elim (read_at s.contexts p x r d' g') [
          | written v v' ↦ u ∙ sym v
          | old v v' ↦ absurd (clash r d' v' (ap (λ y. y.fd) u' ∙ e))
        ]
        | old u u' ↦ elim (read_at s.contexts p x r d' g') [
          | written v v' ↦ absurd (clash q d u' (ap (λ y. y.fd) v' ∙ sym e))
          | old v v' ↦ h.apart q r d d' u' v' e
        ]
      ];
      owned = λ f g. elim (Bool-cases (f == fd)) [
        | inl u ↦ (p, x, set_at-same s.contexts p (some x), sym (==→eq f fd u))
        | inr u ↦
            let (q, d, live, e) = h.owned f (sym (set_at-other s.in_use fd f true u) ∙ g) in
            (
              q,
              d,
              set_at-other s.contexts p q (some x) (apart_free s.contexts p q d free live) ∙ live,
              e,
            )
      ];
      reports = λ f q g. elim (Bool-cases (f == fd)) [
        | inl u ↦
            let here = some-injective p q (rw u at g) in
            (
              x,
              ap (set_at s.contexts p (some x)) (sym here) ∙ set_at-same s.contexts p (some x),
              sym (==→eq f fd u),
            )
        | inr u ↦
            let (d, live, e) = h.reports f q (rw u at g) in
            (
              d,
              set_at-other s.contexts p q (some x) (apart_free s.contexts p q d free live) ∙ live,
              e,
            )
      ];
      peers = λ q d g. elim (read_at s.contexts p x q d g) [
        | written e e' ↦ subst (λ y. PeerIntact y.peer) e' intact
        | old e g' ↦ h.peers q d g'
      ];
    }

-- At the start of the loop in `main` there is the listener only.
pub started-Sound : (lfd place : ℕ) → Sound (started lfd place)
started-Sound lfd place =
    let f : ℕ → Option Context = λ p. none in
    let x : Context = record { fd = lfd; peer = listening false false } in
    let only : (q : ℕ) (d : Context) → set_at f place (some x) q ≡ some d → (q ≡ place) × (x ≡ d) =
      λ q d g. elim (read_at f place x q d g) [
        | written e e' ↦ (e, e')
        | old e g' ↦ absurd (ground (arith, g'))
      ] in
    record {
      owns = λ q d g.
          let (at, same) = only q d g in
          subst (λ k. ((k == lfd) ≡ true) × (set_at (λ j. none) lfd (some place) k ≡ some q))
            (ap (λ y. y.fd) same)
            (==-refl lfd, set_at-same (λ j. none) lfd (some place) ∙ ap some (sym at));
      apart = λ q r d d' g g' e. (only q d g).0 ∙ sym (only r d' g').0;
      owned = λ k g. (place, x, set_at-same f place (some x), sym (==→eq k lfd g));
      reports = λ k q g. elim (Bool-cases (k == lfd)) [
        | inl u ↦
            let here = some-injective place q (rw u at g) in
            (
              x,
              ap (set_at f place (some x)) (sym here) ∙ set_at-same f place (some x),
              sym (==→eq k lfd u),
            )
        | inr u ↦ absurd (ground (arith, g, u))
      ];
      peers = λ q d g. subst (λ y. PeerIntact y.peer) (only q d g).1 tt;
    }
