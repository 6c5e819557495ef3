-- ===== src/TcpEcho/Server/Closed.antt =====
-- What holds of the contexts of c/tcp_echo/main.c when one of them has ended.
use model_lib.Common.{
  ℕ, ◌==◌, ◌≡◌, sym, ap, ◌∙◌, Bool-cases, ==→eq, ne→==-false, inl, inr, false, Option, none, some,
  arith,
}
use model_lib.TcpEcho.Server.{Context, Server, set_at}
use model_lib.TcpEcho.Server.Sound.{Sound, set_at-other, some-injective}

read_deleted :
    (f : ℕ → Option Context) (i j : ℕ) (c : Context)
    → set_at f i none j ≡ some c
    → ((j == i) ≡ false) × (f j ≡ some c)
read_deleted f i j c h = ground arith

-- What `close_client` leaves.
abbrev pub without : (p fd : ℕ) → Server → Server
without p fd s = record {
  contexts = set_at s.contexts p none;
  in_use = set_at s.in_use fd false;
  watched = set_at s.watched fd none;
}

-- A client whose context and descriptor are gone.
pub without-Sound :
    (s : Server) (p : ℕ) (c : Context) → s.contexts p ≡ some c → Sound s → Sound (without p c.fd s)
without-Sound s p c here h =
    let other : (q : ℕ) (d : Context)
        → (q == p) ≡ false
        → s.contexts q ≡ some d
        → (d.fd == c.fd) ≡ false =
      λ q d e g.
        ne→==-false d.fd c.fd (λ u. absurd (ground (arith, h.apart q p d c g here u, e))) in
    let elsewhere : (f q : ℕ) (d : Context)
        → (f == c.fd) ≡ false
        → s.contexts q ≡ some d
        → d.fd ≡ f
        → (q == p) ≡ false =
      λ f q d u live e. elim (Bool-cases (q == p)) [
        | inl v ↦
            let same : c.fd ≡ d.fd =
              ap (λ y. y.fd)
                (some-injective c d (sym here ∙ ap s.contexts (sym (==→eq q p v)) ∙ live)) in
            absurd (ground (arith, same ∙ e, u))
        | inr v ↦ v
      ] in
    record {
      owns = λ q d g.
          let (e, live) = read_deleted s.contexts p q d g in
          let (u, v) = h.owns q d live in
          (
            set_at-other s.in_use c.fd d.fd false (other q d e live) ∙ u,
            set_at-other s.watched c.fd d.fd none (other q d e live) ∙ v,
          );
      apart = λ q r d d' g g' e.
          h.apart q r d d' (read_deleted s.contexts p q d g).1 (read_deleted s.contexts p r d' g').1
            e;
      owned = λ f g. elim (Bool-cases (f == c.fd)) [
        | inl u ↦ absurd (ground (arith, g, u))
        | inr u ↦
            let (q, d, live, e) = h.owned f (sym (set_at-other s.in_use c.fd f false u) ∙ g) in
            (q, d, set_at-other s.contexts p q none (elsewhere f q d u live e) ∙ live, e)
      ];
      reports = λ f q g. elim (Bool-cases (f == c.fd)) [
        | inl u ↦ absurd (ground (arith, g, u))
        | inr u ↦
            let (d, live, e) = h.reports f q (rw u at g) in
            (d, set_at-other s.contexts p q none (elsewhere f q d u live e) ∙ live, e)
      ];
      peers = λ q d g. h.peers q d (read_deleted s.contexts p q d g).1;
    }
