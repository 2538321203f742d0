-- ===== src/Bt/Framing/Signals.antt =====
-- The form of the packets that `l2cap_signal` queues.
use hydroponic_closet.Bt.Codes.{l2cap_cmd, l2cap_cmd_conf_req}
use mathlib.Core.List.{append-nil, append_assoc}
use hydroponic_closet.Prelude.{
  ℕ, ◌+◌, ◌/◌, ◌≡◌, refl, ap, List, [], ◌∷◌, ◌++◌, drop, get_or, u8, u16, if_both, ◌==◌, arith, ◌⊎◌,
  ltb, ◌<◌, ◌&&◌, All,
}
use hydroponic_closet.Bt.Stream.{zeroed, overlay}
use hydroponic_closet.Bt.State.{Packet, Session, word, queue_packet}
use hydroponic_closet.Bt.Signal.{
  info_features, info_channels, conn_res, conn_conf_ertm, conn_conf_basic, conf_done, disconn_res,
  reply, info_req, conn_req, is_obex, conf_req_case, l2cap_signal,
}
use hydroponic_closet.Bt.Config.{conf_mtu, conf_mtu_efm, conf_efm_flow, conf_efm_ertm, conf_req}
use hydroponic_closet.Bt.Framing.Format.{signal_packet, IsSignal, Added}

-- What the code, the identifier and the parameters are is read off the bytes.
IsSignal-of_layout :
    {flags cid : ℕ} (bs : List ℕ)
    → bs ≡ signal_packet flags cid (get_or bs 11 0) (get_or bs 12 0) (drop 15 bs)
    → IsSignal flags cid (overlay bs zeroed.cells)
IsSignal-of_layout bs e = record {
  code = get_or bs 11 0;
  identifier = get_or bs 12 0;
  params = drop 15 bs;
  layout = ap (λ (t : List ℕ). overlay t zeroed.cells) e;
}

All-snoc :
    (K : List ℕ → Type 0) (x : List ℕ) (xs : List (List ℕ)) → All K xs → K x → All K (xs ++ x ∷ [])
All-snoc K x [] h k = (k, tt)
All-snoc K x (y ∷ ys) h k = (h.0, All-snoc K x ys h.1 k)

-- One more packet of the kind.
pub Added-snoc :
    {K : List ℕ → Type 0} {s : Session} (t : Session) (entry : List ℕ)
    → K entry
    → Added K s t
    → Added K s (queue_packet entry t)
unfolding queue_packet
Added-snoc {K} {s} t entry k a = record {
  entries = a.entries ++ entry ∷ [];
  grown = rw a.grown (append_assoc s.queued a.entries (entry ∷ []));
  kind = All-snoc K _ a.entries a.kind k;
}

pub reply-Added :
    {K : List ℕ → Type 0} {s : Session} (t : Session) (bs : List ℕ)
    → K (overlay bs zeroed.cells)
    → Added K s t
    → Added K s (reply bs t)
reply-Added t bs = Added-snoc t (overlay bs zeroed.cells)

pub Added-none : {K : List ℕ → Type 0} (s : Session) → Added K s s
Added-none s = record { entries = []; grown = simp append-nil; kind = tt }

pub Added-kept :
    {K : List ℕ → Type 0} {s : Session} (t u : Session)
    → t.queued ≡ u.queued
    → Added K s t
    → Added K s u
Added-kept t u e a = record { entries = a.entries; grown = rw (← e) a.grown; kind = a.kind }

abbrev flags_of : Packet → ℕ
flags_of packet = u16 (word packet 2 1)

abbrev cid_of : Packet → ℕ
cid_of packet = u16 (word packet 8 7)

-- The configuration requests that `conf_req` knows.
abbrev pub IsKnown : Packet → ℕ → Type 0
IsKnown packet len =
    ((packet 17 ≡ 1) × (len < 22))
    ⊎ ((packet 17 ≡ 1) × (packet 21 ≡ 4))
    ⊎ ((packet 17 ≡ 4) × (packet 19 ≡ 0))
    ⊎ ((packet 17 ≡ 4) × (packet 19 ≡ 3))

-- The writers of `conf_req` send the words of the packet as they come.
pub low_word : (w : ℕ) → u8 w ≡ u8 (u16 w)
low_word w = omega arith

pub high_word : (w : ℕ) → u8 (w / 256) ≡ u8 (u16 w / 256)
high_word w = omega arith

IsSignal-u16 :
    (flags cid : ℕ) {entry : List ℕ}
    → IsSignal flags cid entry
    → IsSignal (u16 flags) (u16 cid) entry
IsSignal-u16 flags cid g = record {
  code = g.code;
  identifier = g.identifier;
  params = g.params;
  layout = rw (← low_word flags, ← high_word flags, ← low_word cid, ← high_word cid) g.layout;
}

module _ (s : Session) (packet : Packet) where
  abbrev Good : Session → Type 0
  Good = Added (IsSignal (flags_of packet) (cid_of packet)) s

  info_req-Good :
      (identifier : ℕ) → Good (info_req s packet (flags_of packet) (cid_of packet) identifier)
  unfolding info_req info_features info_channels
  info_req-Good identifier =
      if_both Good (packet 13 == 2)
        (λ _. reply-Added _ _ (IsSignal-of_layout _ refl) (Added-none s))
        (λ _.
          if_both Good (packet 13 == 3)
            (λ _. reply-Added _ _ (IsSignal-of_layout _ refl) (Added-none s)) (λ _. Added-none s))

  conn_req-Good :
      (identifier : ℕ) → Good (conn_req s packet (flags_of packet) (cid_of packet) identifier)
  unfolding conn_req conn_res conn_conf_ertm conn_conf_basic
  conn_req-Good identifier =
      if_both (λ u. Good (record u { dest_cid = u16 (u.dest_cid + 1) })) (is_obex packet)
        (λ _.
          Added-kept _ _ refl
            (reply-Added _ _ (IsSignal-of_layout _ refl) (Added-kept _ _ refl accepted)))
        (λ _. Added-kept _ _ refl (reply-Added _ _ (IsSignal-of_layout _ refl) accepted))
    where
      src : ℕ
      src = u16 (word packet 16 15)

      accepted : Good (
          reply
            (conn_res (flags_of packet) (cid_of packet) identifier s.dest_cid src)
            (record s { src_cid = src }))
      accepted = reply-Added _ _ (IsSignal-of_layout _ refl) (Added-kept _ _ refl (Added-none s))

  conf_mtu-IsSignal :
      IsSignal (flags_of packet) (cid_of packet) (overlay (conf_mtu s packet) zeroed.cells)
  unfolding conf_mtu
  conf_mtu-IsSignal = IsSignal-u16 (word packet 2 1) (word packet 8 7) (IsSignal-of_layout _ refl)

  conf_mtu_efm-IsSignal :
      IsSignal (flags_of packet) (cid_of packet) (overlay (conf_mtu_efm s packet) zeroed.cells)
  unfolding conf_mtu_efm
  conf_mtu_efm-IsSignal =
      IsSignal-u16 (word packet 2 1) (word packet 8 7) (IsSignal-of_layout _ refl)

  conf_efm_flow-IsSignal :
      IsSignal (flags_of packet) (cid_of packet) (overlay (conf_efm_flow s packet) zeroed.cells)
  unfolding conf_efm_flow
  conf_efm_flow-IsSignal =
      IsSignal-u16 (word packet 2 1) (word packet 8 7) (IsSignal-of_layout _ refl)

  conf_efm_ertm-IsSignal :
      IsSignal (flags_of packet) (cid_of packet) (overlay (conf_efm_ertm s packet) zeroed.cells)
  unfolding conf_efm_ertm
  conf_efm_ertm-IsSignal =
      IsSignal-u16 (word packet 2 1) (word packet 8 7) (IsSignal-of_layout _ refl)

  abbrev Sent : Session × List ℕ → Type 0
  Sent r = Good (reply r.1 r.0)

  conf_req-Good : (len : ℕ) → IsKnown packet len → Good (conf_req_case s packet len)
  unfolding conf_req_case conf_req
  conf_req-Good len known =
      if_both Sent (packet 17 == 1 && ltb len 22)
        (λ _. reply-Added _ _ conf_mtu-IsSignal (Added-kept _ _ refl (Added-none s)))
        (λ a.
          if_both Sent (packet 17 == 1 && packet 21 == 4)
            (λ _. reply-Added _ _ conf_mtu_efm-IsSignal (Added-kept _ _ refl (Added-none s)))
            (λ b.
              if_both Sent (packet 17 == 4 && packet 19 == 0)
                (λ _. reply-Added _ _ conf_efm_flow-IsSignal (Added-kept _ _ refl (Added-none s)))
                (λ c.
                  if_both Sent (packet 17 == 4 && packet 19 == 3)
                    (λ _.
                      reply-Added _ _ conf_efm_ertm-IsSignal (Added-kept _ _ refl (Added-none s)))
                    (λ d. absurd (ground arith)))))

  conf_done-Good : (i src : ℕ) → Good (reply (conf_done (flags_of packet) (cid_of packet) i src) s)
  unfolding conf_done
  conf_done-Good i src = reply-Added _ _ (IsSignal-of_layout _ refl) (Added-none s)

  disconn_res-Good :
      (i : ℕ) → Good (reply (disconn_res (flags_of packet) (cid_of packet) i packet) s)
  unfolding disconn_res
  disconn_res-Good i = reply-Added _ _ (IsSignal-of_layout _ refl) (Added-none s)

  -- Whatever command comes in on the signalling channel, where a configuration request is one of
  -- the four that `conf_req` knows: what is queued in answer stands behind what was queued before,
  -- and is a list of complete L2CAP signalling packets on that channel with the flags of the
  -- request, every length field right.
  pub l2cap_signal-Added :
      (len : ℕ)
      → (packet 9 ≡ l2cap_cmd l2cap_cmd_conf_req → IsKnown packet len)
      → Added
          (IsSignal (u16 (word packet 2 1)) (u16 (word packet 8 7)))
          s
          (l2cap_signal s packet len)
  unfolding l2cap_signal
  l2cap_signal-Added len known =
      if_both Good (packet 9 == 0x0a) (λ _. info_req-Good (packet 10))
        (λ _.
          if_both Good (packet 9 == 0x02) (λ _. conn_req-Good (packet 10))
            (λ _.
              if_both Good (packet 9 == 0x04) (λ c. conf_req-Good len (known (ground arith)))
                (λ _.
                  if_both Good (packet 9 == 0x05) (λ _. conf_done-Good (packet 10) s.src_cid)
                    (λ _.
                      if_both Good (packet 9 == 0x06) (λ _. disconn_res-Good (packet 10))
                        (λ _. Added-none s)))))
