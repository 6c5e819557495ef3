-- ===== src/TcpEcho/Server/Sound.antt =====
-- What holds of the contexts of c/tcp_echo/main.c between two calls, and that each change of them keeps
-- it.
use model_lib.Common.{
  ℕ, ◌==◌, ◌≡◌, refl, sym, ap, ◌∙◌, subst, Bool-cases, ==→eq, ==-refl, inl, inr, true, false,
  Option, none, some, arith,
}
use model_lib.TcpEcho.Intact.{Intact}
use model_lib.TcpEcho.Server.{Peer, listening, connected, Context, Server, set_at, set_peer}

-- The echo of a client is intact; nothing is asked of the listener.
abbrev pub PeerIntact : Peer → Type 0
PeerIntact (listening prd pwr) = Unit
PeerIntact (connected k) = Intact k

-- Every live context has a descriptor of its own, which is open and watched with its address, every open
-- descriptor has a live context, epoll knows no address but that of the descriptor's live context, and the
-- clients are intact.
pub record Sound (s : Server) : Type 0 where
  pub owns :
      (p : ℕ) (c : Context)
      → s.contexts p ≡ some c
      → (s.in_use c.fd ≡ true) × (s.watched c.fd ≡ some p)
  pub apart :
      (p q : ℕ) (c d : Context)
      → s.contexts p ≡ some c
      → s.contexts q ≡ some d
      → c.fd ≡ d.fd
      → p ≡ q
  pub owned :
      (f : ℕ) → s.in_use f ≡ true → (p : ℕ) × (c : Context) × (s.contexts p ≡ some c) × (c.fd ≡ f)
  pub reports :
      (f p : ℕ) → s.watched f ≡ some p → (c : Context) × (s.contexts p ≡ some c) × (c.fd ≡ f)
  pub peers : (p : ℕ) (c : Context) → s.contexts p ≡ some c → PeerIntact c.peer

pub set_at-same : {A : Type 0} → (f : ℕ → A) (i : ℕ) (x : A) → set_at f i x i ≡ x
set_at-same f i x = rw (==-refl i) refl

pub set_at-other :
    {A : Type 0} → (f : ℕ → A) (i j : ℕ) (x : A) → (j == i) ≡ false → set_at f i x j ≡ f j
set_at-other f i j x e = rw e refl

-- A context in a heap with `x` written at `i` is `x`, or an old one elsewhere.
pub data ReadAt (f : ℕ → Option Context) (i : ℕ) (x : Context) (j : ℕ) (c : Context) : Type 0 where
  written : j ≡ i → x ≡ c → ReadAt f i x j c
  old : (j == i) ≡ false → f j ≡ some c → ReadAt f i x j c

pub some-injective : {A : Type 0} → (c d : A) → some c ≡ some d → c ≡ d
some-injective c d e = ap (λ o. elim o [ none ↦ c | some x ↦ x ]) e

pub read_at :
    (f : ℕ → Option Context) (i : ℕ) (x : Context) (j : ℕ) (c : Context)
    → set_at f i (some x) j ≡ some c
    → ReadAt f i x j c
read_at f i x j c h = elim (Bool-cases (j == i)) [
  | inl e ↦ written (==→eq j i e) (some-injective x c (rw e at h))
  | inr e ↦ old e (rw e at h)
]

-- A live address is not a free one.
pub apart_free :
    (f : ℕ → Option Context) (p q : ℕ) (c : Context) → f p ≡ none → f q ≡ some c → (q == p) ≡ false
apart_free f p q c free live = elim (Bool-cases (q == p)) [
  | inr e ↦ e
  | inl e ↦ absurd (ground (arith, sym (ap f (==→eq q p e)) ∙ live, free))
]

-- The context of a peer that has changed.
pub set_peer-Sound :
    (s : Server) (p : ℕ) (c : Context) (peer : Peer)
    → s.contexts p ≡ some c
    → PeerIntact peer
    → Sound s
    → Sound (set_peer p c peer s)
set_peer-Sound s p c peer here intact h =
    let x : Context = record { fd = c.fd; peer = peer } in
    record {
      owns = λ q d g. elim (read_at s.contexts p x q d g) [
        | written e e' ↦
            let (u, v) = h.owns p c here in
            subst (λ f. (s.in_use f ≡ true) × (s.watched f ≡ some q)) (ap (λ y. y.fd) e')
              (u, v ∙ ap some (sym e))
        | old e g' ↦ h.owns q d g'
      ];
      apart = λ q r d d' g g' e. elim (read_at s.contexts p x q d g) [
        | written u u' ↦ elim (read_at s.contexts p x r d' g') [
          | written v v' ↦ u ∙ sym v
          | old v v' ↦ u ∙ h.apart p r c d' here v' (ap (λ y. y.fd) u' ∙ e)
        ]
        | old u u' ↦ elim (read_at s.contexts p x r d' g') [
          | written v v' ↦ h.apart q p d c u' here (e ∙ sym (ap (λ y. y.fd) v')) ∙ sym v
          | old v v' ↦ h.apart q r d d' u' v' e
        ]
      ];
      owned = λ f g.
          let (q, d, live, e) = h.owned f g in
          elim (Bool-cases (q == p)) [
            | inl u ↦ (
              p,
              x,
              set_at-same s.contexts p (some x),
              ap (λ y. y.fd)
                    (some-injective c d (sym here ∙ ap s.contexts (sym (==→eq q p u)) ∙ live))
                  ∙ e,
            )
            | inr u ↦ (q, d, set_at-other s.contexts p q (some x) u ∙ live, e)
          ];
      reports = λ f q g.
          let (d, live, e) = h.reports f q g in
          elim (Bool-cases (q == p)) [
            | inl u ↦
                let at = ==→eq q p u in
                (
                  x,
                  ap (set_at s.contexts p (some x)) at ∙ set_at-same s.contexts p (some x),
                  ap (λ y. y.fd) (some-injective c d (sym here ∙ ap s.contexts (sym at) ∙ live))
                      ∙ e,
                )
            | inr u ↦ (d, set_at-other s.contexts p q (some x) u ∙ live, e)
          ];
      peers = λ q d g. elim (read_at s.contexts p x q d g) [
        | written e e' ↦ subst (λ y. PeerIntact y.peer) e' intact
        | old e g' ↦ h.peers q d g'
      ];
    }
