-- ===== src/Bt/Framing/Traffic.antt =====
-- All that the controller's callback queues, over any run of packets.
use hydroponic_closet.Bt.Codes.{l2cap_cmd, l2cap_cmd_conf_req}
use mathlib.Core.Path.{subst}
use native.Mathlib.Decide.{ℕ_discrete}
use hydroponic_closet.Prelude.{
  ℕ, ◌≡◌, ◌⊎◌, inl, inr, refl, sym, List, [], ◌∷◌, ◌++◌, All, u16, ◌==◌, if_both, replicate, ltb,
  ◌&&◌, arith,
}
use hydroponic_closet.Bt.Stream.{zeroed, overlay}
use hydroponic_closet.Bt.State.{Packet, Session, Outcome, done, overrun, hang, word}
use hydroponic_closet.Bt.Config.{conf_req}
use hydroponic_closet.Bt.Signal.{reply, conf_req_case, l2cap_signal}
use hydroponic_closet.Bt.Hci.{pin, hci_event_handler}
use hydroponic_closet.Bt.Handler.{obex_ftp, l2cap_cmd_handler, host_rcv_pkt, serve}
use hydroponic_closet.Bt.Transport.{payload}
use hydroponic_closet.Bt.Framing.Format.{command, IsSignal, Added}
use hydroponic_closet.Bt.Framing.Signals.{IsKnown, reply-Added, Added-none, l2cap_signal-Added}
use hydroponic_closet.Bt.Framing.Checked.{IsChecked}
use hydroponic_closet.Bt.Framing.Obex.{Returned, obex_ftp-Added}
use hydroponic_closet.Bt.Framing.Serve.{serve-Added}
use hydroponic_closet.Bt.Framing.Command.{address, conn_answer_lem, pin_answer_lem}
use hydroponic_closet.Bt.Framing.Discovery.{IsAnswer, sdp_request-Added}

-- What may be in the queue.
pub data IsSound (entry : List ℕ) : Type 0 where
  signal : (flags cid : ℕ) → IsSignal flags cid entry → IsSound entry
  checked : (flags cid : ℕ) → IsChecked flags cid entry → IsSound entry
  answer : (flags cid number : ℕ) → IsAnswer flags cid number entry → IsSound entry
  hci : (opcode : ℕ) (params : List ℕ) → payload entry ≡ command opcode params → IsSound entry
  nothing : payload entry ≡ [] → IsSound entry

All-map :
    {K L : List ℕ → Type 0}
    → ((entry : List ℕ) → K entry → L entry)
    → (entries : List (List ℕ)) → All K entries
    → All L entries
All-map f [] h = tt
All-map f (x ∷ xs) h = (f x h.0, All-map f xs h.1)

weaken :
    {K L : List ℕ → Type 0} {s t : Session}
    → ((entry : List ℕ) → K entry → L entry)
    → Added K s t
    → Added L s t
weaken f a = record { entries = a.entries; grown = a.grown; kind = All-map f a.entries a.kind }

abbrev pub Sound : Session → Session → Type 0
Sound = Added IsSound

module _ (s : Session) (packet : Packet) (len : ℕ) where
  hci_event_handler-Sound : Sound s (hci_event_handler s packet)
  unfolding hci_event_handler
  hci_event_handler-Sound =
      if_both (Sound s) (packet 1 == 0x04)
        (λ _.
          if_both (Sound s) (s.connected == 0)
            (λ _.
              reply-Added s _
                (hci 0x0409 (address packet ++ 1 ∷ []) (conn_answer_lem 0x0409 packet))
                (Added-none s))
            (λ _.
              reply-Added s _
                (hci 0x040a (address packet ++ 1 ∷ []) (conn_answer_lem 0x040a packet))
                (Added-none s)))
        (λ _.
          if_both (Sound s) (packet 1 == 0x16)
            (λ _.
              reply-Added s _
                (hci 0x040d (address packet ++ 4 ∷ pin ++ replicate 12 0) (pin_answer_lem packet))
                (Added-none s))
            (λ _. Added-none s))

  IsKnown-or_silent : IsKnown packet len ⊎ (conf_req s packet len ≡ (s, []))
  unfolding conf_req
  IsKnown-or_silent =
      let P : Session × List ℕ → Type 0 = λ r. IsKnown packet len ⊎ (r ≡ (s, [])) in
      if_both P (packet 17 == 1 && ltb len 22) (λ e. inl (ground arith))
        (λ _.
          if_both P (packet 17 == 1 && packet 21 == 4) (λ e. inl (ground arith))
            (λ _.
              if_both P (packet 17 == 4 && packet 19 == 0) (λ e. inl (ground arith))
                (λ _.
                  if_both P (packet 17 == 4 && packet 19 == 3) (λ e. inl (ground arith))
                    (λ _. inr refl))))

  silent :
      packet 9 ≡ l2cap_cmd l2cap_cmd_conf_req
      → conf_req s packet len ≡ (s, [])
      → l2cap_signal s packet len ≡ reply [] s
  unfolding l2cap_signal conf_req_case
  silent p e = rw (p, e)

  no_bytes : payload (overlay [] zeroed.cells) ≡ []
  unfolding payload overlay zeroed
  no_bytes = refl

  l2cap_signal-Sound : Sound s (l2cap_signal s packet len)
  l2cap_signal-Sound = elim IsKnown-or_silent [
    | inl k ↦ weaken (λ e. signal _ _) (l2cap_signal-Added s packet len (λ _. k))
    | inr e ↦ elim (ℕ_discrete (packet 9) (l2cap_cmd l2cap_cmd_conf_req)) [
      | yes p ↦
          subst (Sound s) (sym (silent p e)) (reply-Added s [] (nothing no_bytes) (Added-none s))
      | no q ↦ weaken (λ e. signal _ _) (l2cap_signal-Added s packet len (λ p. absurd (q p)))
    ]
  ]

  obex_ftp-Sound : Returned (Sound s) (obex_ftp s packet len)
  obex_ftp-Sound = returned (obex_ftp s packet len) (obex_ftp-Added s packet len)
    where
      returned :
          (o : Outcome)
          → Returned (Added (IsChecked (u16 (word packet 2 1)) s.src_cid) s) o
          → Returned (Sound s) o
      returned (done t) a = weaken (λ e. checked _ _) a
      returned overrun a = tt
      returned hang a = tt

  host_rcv_pkt-Sound : Returned (Sound s) (host_rcv_pkt s packet len)
  unfolding host_rcv_pkt l2cap_cmd_handler
  host_rcv_pkt-Sound =
      let R = Returned (Sound s) in
      if_both R (packet 0 == 0x04) (λ _. hci_event_handler-Sound)
        (λ _.
          if_both R (packet 0 == 0x02)
            (λ _.
              if_both R (u16 (word packet 8 7) == 1) (λ _. l2cap_signal-Sound)
                (λ _.
                  if_both R (u16 (word packet 8 7) == s.obex_cid) (λ _. obex_ftp-Sound)
                    (λ _. weaken (λ e. answer _ _ _) (sdp_request-Added s packet))))
            (λ _. Added-none s))

-- Whatever packets the controller delivers, one after the other: if the callback returns from all
-- of them, the entries that it queued stand behind those of before, and each is a well-formed
-- signalling packet, OBEX frame with its checksum, service discovery answer or HCI command, or has
-- an empty payload.
pub serve-Sound : (packets : List (Packet × ℕ)) (s : Session) → Returned (Sound s) (serve s packets)
serve-Sound = serve-Added IsSound host_rcv_pkt-Sound
