-- ===== src/Bt/Protocol/Server/Kept.antt =====
-- What a packet of a file transfer (blue/bt_main.c) leaves the same.
use mathlib.Core.Path.{subst}
use hydroponic_closet.Prelude.{ℕ, ◌+◌, ◌≡◌, ◌≢◌, refl, ◌∙◌, length, some, arith, u16}
use hydroponic_closet.Bt.State.{Packet, Session, done, word, queue_packet}
use hydroponic_closet.Bt.Put.{Put, head_len, put_name, put_size, put_body}
use hydroponic_closet.Bt.Handler.{host_rcv_pkt}
use hydroponic_closet.Bt.Framing.Obex.{Returned}
use hydroponic_closet.Bt.Receive.Stable.{IsStable, host_rcv_pkt-kept}
use hydroponic_closet.Bt.Receive.Ranges.{copied_string}
use hydroponic_closet.Bt.Protocol.{Channels}
use hydroponic_closet.Bt.Protocol.Refines.{channels_of}

-- The channels, `connected`, the identifier and the lengths of the arrays.
pub record IsKept (c : Channels) (on id n m : ℕ) (s : Session) : Type 0 where
  pub channels : channels_of s ≡ c
  pub connected : s.connected ≡ on
  pub identifier : s.obex_conn_id ≡ id
  pub name_length : length s.buffer_1 ≡ n
  pub contents_length : length s.buffer_2 ≡ m

module _ (c : Channels) (on id n m : ℕ) (packet : Packet) where
  same_globals :
      (s t : Session)
      → (channels_of t ≡ channels_of s)
        × (t.connected ≡ s.connected)
        × (t.obex_conn_id ≡ s.obex_conn_id)
      → length t.buffer_1 ≡ n
      → length t.buffer_2 ≡ m
      → IsKept c on id n m s
      → IsKept c on id n m t
  same_globals s t (a, o, b) e f k = record {
    channels = a ∙ k.channels;
    connected = o ∙ k.connected;
    identifier = b ∙ k.identifier;
    name_length = e;
    contents_length = f;
  }

  name-IsKept :
      (p q : Put)
      → IsKept c on id n m p.session
      → put_name packet p ≡ some q
      → IsKept c on id n m q.session
  unfolding put_name
  name-IsKept p q k e =
      let stop = head_len packet p.i + p.i in
      same_globals p.session q.session (ground arith)
        (ground (
          arith,
          copied_string n 2 packet (p.i + 4) stop p.session.buffer_1 q.session.buffer_1
              k.name_length,
        ))
        (ground arith) k

  body-IsKept :
      (p q : Put)
      → IsKept c on id n m p.session
      → put_body packet p ≡ some q
      → IsKept c on id n m q.session
  unfolding put_body
  body-IsKept p q k e =
      let stop = head_len packet p.i + p.i in
      same_globals p.session q.session (ground arith) (ground arith)
        (ground (
          arith,
          copied_string m 1 packet (p.i + 3) stop p.session.buffer_2 q.session.buffer_2
              k.contents_length,
        ))
        k

  IsKept-IsStable : u16 (word packet 8 7) ≢ 0x01 → IsStable (IsKept c on id n m) packet
  unfolding queue_packet put_size
  IsKept-IsStable other = record {
    queue = λ bs s k. same_globals s _ (refl, refl, refl) k.name_length k.contents_length k;
    name = name-IsKept;
    size = λ p k. same_globals p.session _ (refl, refl, refl) k.name_length k.contents_length k;
    body = body-IsKept;
    signal = λ s len acl sig k. elim (other sig) [ ];
  }

pub transfer-IsKept :
    (s t : Session) (packet : Packet) (len : ℕ)
    → u16 (word packet 8 7) ≢ 0x01
    → host_rcv_pkt s packet len ≡ done t
    → IsKept (channels_of s) s.connected s.obex_conn_id (length s.buffer_1) (length s.buffer_2) t
transfer-IsKept s t packet len other e =
    let P =
      IsKept (channels_of s) s.connected s.obex_conn_id (length s.buffer_1) (length s.buffer_2) in
    subst (Returned P) e (
      host_rcv_pkt-kept P packet (IsKept-IsStable _ _ _ _ _ packet other) s len (record {
        channels = refl;
        connected = refl;
        identifier = refl;
        name_length = refl;
        contents_length = refl;
      }))
