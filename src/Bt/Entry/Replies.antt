-- ===== src/Bt/Entry/Replies.antt =====
-- The answers on the signalling channel, to service discovery and to HCI events, as entries.
use hydroponic_closet.Prelude.{
  ℕ, ◌≤◌, List, [], All, length, if_both, ◌==◌, ◌&&◌, ◌||◌, ltb, arith, u16, u8, refl,
}
use hydroponic_closet.Bt.Codes.{
  l2cap_cmd, l2cap_cmd_info_req, l2cap_cmd_conn_req, l2cap_cmd_conf_req, l2cap_cmd_conf_res,
  l2cap_cmd_disconn_req, sdp_type, sdp_att_req, hci_event, hci_evt_conn_req, hci_evt_pin_code_req,
}
use hydroponic_closet.Bt.State.{Packet, Session, word}
use hydroponic_closet.Bt.Config.{conf_mtu, conf_mtu_efm, conf_efm_flow, conf_efm_ertm, conf_req}
use hydroponic_closet.Bt.Signal.{
  info_features, info_channels, conn_res, conn_conf_ertm, conn_conf_basic, conf_done, disconn_res,
  reply, info_req, conn_req, is_obex, conf_req_case, l2cap_signal,
}
use hydroponic_closet.Bt.Sdp.{services, device_id, sdp_request}
use hydroponic_closet.Bt.Hci.{conn_answer, pin_answer, hci_event_handler}
use hydroponic_closet.Bt.Framing.Format.{Added}
use hydroponic_closet.Bt.Framing.Signals.{reply-Added, Added-none, Added-kept}
use hydroponic_closet.Bt.Entry.{IsByte, IsEntry, overlay-IsEntry}

-- Only entries are added.
abbrev pub AddsEntries : Session → Session → Type 0
AddsEntries = Added IsEntry

-- One more answer, behind what a session with the same queue has.
answers :
    (s t : Session) (bs : List ℕ)
    → AddsEntries s t
    → length bs ≤ 300
    → All IsByte bs
    → AddsEntries s (reply bs t)
answers s t bs a h v = reply-Added t bs (overlay-IsEntry bs h v) a

module _ (s t : Session) (a : AddsEntries s t) (f c i : ℕ) where
  features : AddsEntries s (reply (info_features f c i) t)
  unfolding info_features
  features = answers s t _ a (omega arith) (ground arith)

  channels : AddsEntries s (reply (info_channels f c i) t)
  unfolding info_channels
  channels = answers s t _ a (omega arith) (ground arith)

  connection : (d p : ℕ) → AddsEntries s (reply (conn_res f c i d p) t)
  unfolding conn_res
  connection d p = answers s t _ a (omega arith) (ground arith)

  obex_mode : (p : ℕ) → AddsEntries s (reply (conn_conf_ertm f c i p) t)
  unfolding conn_conf_ertm
  obex_mode p = answers s t _ a (omega arith) (ground arith)

  basic_mode : (p : ℕ) → AddsEntries s (reply (conn_conf_basic f c i p) t)
  unfolding conn_conf_basic
  basic_mode p = answers s t _ a (omega arith) (ground arith)

  configured : (p : ℕ) → AddsEntries s (reply (conf_done f c i p) t)
  unfolding conf_done
  configured p = answers s t _ a (omega arith) (ground arith)

  disconnection : (packet : Packet) → AddsEntries s (reply (disconn_res f c i packet) t)
  unfolding disconn_res
  disconnection packet = answers s t _ a (omega arith) (ground arith)

module _ (s : Session) (packet : Packet) where
  mtu_only : (t : Session) → AddsEntries s t → AddsEntries s (reply (conf_mtu s packet) t)
  unfolding conf_mtu
  mtu_only t a = answers s t _ a (omega arith) (ground arith)

  mtu_and_mask : (t : Session) → AddsEntries s t → AddsEntries s (reply (conf_mtu_efm s packet) t)
  unfolding conf_mtu_efm
  mtu_and_mask t a = answers s t _ a (omega arith) (ground arith)

  mask_flow : (t : Session) → AddsEntries s t → AddsEntries s (reply (conf_efm_flow s packet) t)
  unfolding conf_efm_flow
  mask_flow t a = answers s t _ a (omega arith) (ground arith)

  mask_ertm : (t : Session) → AddsEntries s t → AddsEntries s (reply (conf_efm_ertm s packet) t)
  unfolding conf_efm_ertm
  mask_ertm t a = answers s t _ a (omega arith) (ground arith)

  obex_service : (f p : ℕ) → AddsEntries s (reply (services f p packet) s)
  unfolding services
  obex_service f p = answers s s _ (Added-none s) (omega arith) (ground arith)

  device : (f p : ℕ) → AddsEntries s (reply (device_id f p packet) s)
  unfolding device_id
  device f p = answers s s _ (Added-none s) (omega arith) (ground arith)

  accepted : (opcode : ℕ) → AddsEntries s (reply (conn_answer opcode packet) s)
  unfolding conn_answer
  accepted opcode = answers s s _ (Added-none s) (omega arith) (ground arith)

  pairing : AddsEntries s (reply (pin_answer packet) s)
  unfolding pin_answer
  pairing = answers s s _ (Added-none s) (omega arith) (ground arith)

  info_req-AddsEntries : (f c i : ℕ) → AddsEntries s (info_req s packet f c i)
  unfolding info_req
  info_req-AddsEntries f c i =
      if_both (AddsEntries s) (packet 13 == 2) (λ _. features s s (Added-none s) f c i)
        (λ _.
          if_both (AddsEntries s) (packet 13 == 3) (λ _. channels s s (Added-none s) f c i)
            (λ _. Added-none s))

  conn_req-AddsEntries : (f c i : ℕ) → AddsEntries s (conn_req s packet f c i)
  unfolding conn_req
  conn_req-AddsEntries f c i =
      let src = u16 (word packet 16 15) in
      let r : Session = record s { src_cid = src } in
      let t = reply (conn_res f c i s.dest_cid src) r in
      let a : AddsEntries s t =
        connection s r (Added-kept s r refl (Added-none s)) f c i s.dest_cid src in
      let v : Session = record t { obex_cid = u8 s.dest_cid } in
      Added-kept _ _ refl (
        if_both (AddsEntries s) (is_obex packet)
          (λ _. obex_mode s v (Added-kept t v refl a) f c i src) (λ _. basic_mode s t a f c i src))

  conf_req-AddsEntries : (len : ℕ) → AddsEntries s (conf_req_case s packet len)
  unfolding conf_req_case conf_req
  conf_req-AddsEntries len =
      let Sent : Session × List ℕ → Type 0 = λ r. AddsEntries s (reply r.1 r.0) in
      if_both Sent (packet 17 == 1 && ltb len 22)
        (λ _. mtu_only _ (Added-kept _ _ refl (Added-none s)))
        (λ _.
          if_both Sent (packet 17 == 1 && packet 21 == 4)
            (λ _. mtu_and_mask _ (Added-kept _ _ refl (Added-none s)))
            (λ _.
              if_both Sent (packet 17 == 4 && packet 19 == 0)
                (λ _. mask_flow _ (Added-kept _ _ refl (Added-none s)))
                (λ _.
                  if_both Sent (packet 17 == 4 && packet 19 == 3)
                    (λ _. mask_ertm _ (Added-kept _ _ refl (Added-none s)))
                    (λ _. answers s s [] (Added-none s) (omega arith) tt))))

  pub l2cap_signal-AddsEntries : (len : ℕ) → AddsEntries s (l2cap_signal s packet len)
  unfolding l2cap_signal
  l2cap_signal-AddsEntries len =
      let f = u16 (word packet 2 1) in
      let c = u16 (word packet 8 7) in
      let i = packet 10 in
      if_both (AddsEntries s) (packet 9 == l2cap_cmd l2cap_cmd_info_req)
        (λ _. info_req-AddsEntries f c i)
        (λ _.
          if_both (AddsEntries s) (packet 9 == l2cap_cmd l2cap_cmd_conn_req)
            (λ _. conn_req-AddsEntries f c i)
            (λ _.
              if_both (AddsEntries s) (packet 9 == l2cap_cmd l2cap_cmd_conf_req)
                (λ _. conf_req-AddsEntries len)
                (λ _.
                  if_both (AddsEntries s) (packet 9 == l2cap_cmd l2cap_cmd_conf_res)
                    (λ _. configured s s (Added-none s) f c i s.src_cid)
                    (λ _.
                      if_both (AddsEntries s) (packet 9 == l2cap_cmd l2cap_cmd_disconn_req)
                        (λ _. disconnection s s (Added-none s) f c i packet) (λ _. Added-none s)))))

  pub sdp_request-AddsEntries : AddsEntries s (sdp_request s packet)
  unfolding sdp_request
  sdp_request-AddsEntries =
      if_both (AddsEntries s) (packet 9 == sdp_type sdp_att_req)
        (λ _.
          if_both (AddsEntries s)
            (packet 17 == 1 && packet 18 == 0 || packet 17 == 0x11 && packet 18 == 5)
            (λ _. obex_service _ _)
            (λ _.
              if_both (AddsEntries s) (packet 17 == 0x12 && packet 18 == 0) (λ _. device _ _)
                (λ _. Added-none s)))
        (λ _. Added-none s)

  pub hci_event_handler-AddsEntries : AddsEntries s (hci_event_handler s packet)
  unfolding hci_event_handler
  hci_event_handler-AddsEntries =
      if_both (AddsEntries s) (packet 1 == hci_event hci_evt_conn_req)
        (λ _.
          if_both (AddsEntries s) (s.connected == 0) (λ _. accepted 0x0409) (λ _. accepted 0x040a))
        (λ _.
          if_both (AddsEntries s) (packet 1 == hci_event hci_evt_pin_code_req) (λ _. pairing)
            (λ _. Added-none s))
