-- ===== src/Bt/Framing/Serve.antt =====
-- From what one packet of the controller makes the callback queue to what a run of them does.
use mathlib.Core.List.{append_assoc}
use hydroponic_closet.Prelude.{ℕ, ◌≡◌, arith, List, [], ◌∷◌, ◌++◌, All-append}
use hydroponic_closet.Bt.State.{Packet, Session, Outcome, done, overrun, hang}
use hydroponic_closet.Bt.Handler.{host_rcv_pkt, serve}
use hydroponic_closet.Bt.Framing.Format.{Added}
use hydroponic_closet.Bt.Framing.Signals.{Added-none}
use hydroponic_closet.Bt.Framing.Obex.{Returned}

module _ (K : List ℕ → Type 0) where
  -- One stretch after another.
  joined : {s t u : Session} → Added K s t → Added K t u → Added K s u
  joined {s} a b = record {
    entries = a.entries ++ b.entries;
    grown = rw (b.grown, a.grown) (append_assoc s.queued a.entries b.entries);
    kind = All-append K a.entries b.entries a.kind b.kind;
  }

  -- If each packet from which the callback returns adds entries of a kind only, so does a run.
  pub serve-Added :
      ((s : Session) (packet : Packet) (len : ℕ) → Returned (Added K s) (host_rcv_pkt s packet len))
      → (packets : List (Packet × ℕ)) (s : Session) → Returned (Added K s) (serve s packets)
  unfolding serve
  serve-Added each [] s = Added-none s
  serve-Added each ((packet, len) ∷ rest) s =
      onward (host_rcv_pkt s packet len) (each s packet len) (serve-Added each rest)
    where
      later :
          (o : Outcome) (t : Session)
          → Added K s t
          → Returned (Added K t) o
          → Returned (Added K s) o
      later (done u) t a b = joined a b
      later overrun t a b = tt
      later hang t a b = tt

      onward :
          (o : Outcome)
          → Returned (Added K s) o
          → ((t : Session) → Returned (Added K t) (serve t rest))
          → Returned
              (Added K s)
              (elim o [ done t ↦ serve t rest | overrun ↦ overrun | hang ↦ hang ])
      onward (done t) a f = later (serve t rest) t a (f t)
      onward overrun a f = tt
      onward hang a f = tt

-- A packet more.
pub serve-onward :
    (packets : List (Packet × ℕ)) (p : Packet) (len : ℕ) (s t u : Session)
    → serve s packets ≡ done t
    → host_rcv_pkt t p len ≡ done u
    → serve s (packets ++ (p, len) ∷ []) ≡ done u
unfolding serve
serve-onward [] p len s t u e f = ground arith
serve-onward ((q, n) ∷ rest) p len s t u e f =
    at_first (host_rcv_pkt s q n) (λ v g. serve-onward rest p len v t u g f) e
  where
    at_first :
        (o : Outcome)
        → ((v : Session) → serve v rest ≡ done t → serve v (rest ++ (p, len) ∷ []) ≡ done u)
        → elim o [ done v ↦ serve v rest | overrun ↦ overrun | hang ↦ hang ] ≡ done t
        → elim o [ done v ↦ serve v (rest ++ (p, len) ∷ []) | overrun ↦ overrun | hang ↦ hang ]
          ≡ done u
    at_first (done v) k e = k v e
    at_first overrun k e = cc
    at_first hang k e = cc
