-- ===== src/Bt/Protocol/Server/Steps.antt =====
-- The callback (`host_rcv_pkt` of blue/bt_main.c) takes the server's steps, over a run of packets.
use hydroponic_closet.Prelude.{ℕ, ◌≡◌, refl, ap, ◌∙◌, List, [], ◌∷◌, length}
use hydroponic_closet.Bt.State.{Packet, Session, Outcome, done, overrun, hang}
use hydroponic_closet.Bt.Handler.{host_rcv_pkt, serve}
use hydroponic_closet.Bt.Protocol.Server.Taken.{server_of, Stepped, request-Stepped}
use hydroponic_closet.Bt.Protocol.Server.{Server, step, steps, AreRequests}

module _ (s : Session) where
  -- From the first packet on.
  and_rest :
      (rest : List (Packet × ℕ)) (v : Server) (o : Outcome)
      → Stepped s v o
      → ((u : Session)
          → server_of u ≡ v
          → length u.buffer_1 ≡ length s.buffer_1
          → length u.buffer_2 ≡ length s.buffer_2
          → (t : Session) × (serve u rest ≡ done t) × (server_of t ≡ steps v rest))
      → (t : Session) × (elim o [ done u ↦ serve u rest | overrun ↦ overrun | hang ↦ hang ]
          ≡ done t)
        × (server_of t ≡ steps v rest)
  and_rest rest v o w k =
      let (t, e, f) = k w.after w.server w.name_length w.contents_length in (t, rw w.returns e, f)

-- Whatever packets the callback is handed, if each on the OBEX channel of its time consists of bytes
-- and is no PUT or a chain of known headers with room for what it holds: the callback returns from
-- all of them, and then the globals for the channels, `connected` and `obex_conn_id` are those of the
-- server, the name, the text and the size that a receiver keeps are those of its file, and the
-- packets queued for the controller are those that it has sent.
pub serve-steps :
    (packets : List (Packet × ℕ)) (s : Session)
    → AreRequests (length s.buffer_1) (length s.buffer_2) (server_of s) packets
    → (t : Session) × (serve s packets ≡ done t) × (server_of t ≡ steps (server_of s) packets)
unfolding serve
serve-steps [] s h = (s, refl, refl)
serve-steps ((packet, len) ∷ rest) s h =
    and_rest s rest (step (server_of s) (packet, len)) (host_rcv_pkt s packet len)
      (request-Stepped s packet len h.0)
      (λ u e a b.
        let later : AreRequests (length u.buffer_1) (length u.buffer_2) (server_of u) rest =
          rw (a, b, e) h.1 in
        let (t, f, g) = serve-steps rest u later in (t, f, g ∙ ap (λ v. steps v rest) e))
