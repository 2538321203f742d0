-- ===== src/Bt/Receive/Ranges.antt =====
-- The globals of the handlers (blue/bt_main.c) stay in the range of their C types, and the caller's
-- arrays keep their lengths.
use hydroponic_closet.Prelude.{
  ℕ, zero, suc, ◌+◌, ◌<◌, ◌≡◌, ◌∙◌, List, [], ◌∷◌, All, Option, none, some, arith, length, set,
  length-set,
}
use hydroponic_closet.Bt.State.{Packet, Session, set_dir, queue_packet}
use hydroponic_closet.Bt.Config.{conf_req}
use hydroponic_closet.Bt.Signal.{info_req, conn_req, conf_req_case, l2cap_signal}
use hydroponic_closet.Bt.Put.{Put, head_len, copy_bytes, end_string, put_name, put_size, put_body}
use hydroponic_closet.Bt.Handler.{serve}
use hydroponic_closet.Bt.Framing.Obex.{Returned}
use hydroponic_closet.Bt.Receive.Stable.{IsStable, serve-kept}

-- `n` and `m` are the lengths of the two arrays. Two of the globals are never changed.
pub record IsInRange (n m : ℕ) (s : Session) : Type 0 where
  pub connected : s.connected ≡ 0
  pub obex_conn_id : s.obex_conn_id ≡ 1
  pub obex_cid : s.obex_cid < 256
  pub src_cid : s.src_cid < 65536
  pub dest_cid : s.dest_cid < 65536
  pub mtu : s.mtu < 65536
  pub file_len : s.file_len < 4294967296
  pub name_length : length s.buffer_1 ≡ n
  pub contents_length : length s.buffer_2 ≡ m

-- A string that was copied into an array leaves the array its length.
copied_length :
    (rounds stride : ℕ) (packet : Packet) (j stop x : ℕ) (buffer : List ℕ) (r : List ℕ × ℕ)
    → copy_bytes rounds stride packet j stop x buffer ≡ some r
    → length r.0 ≡ length buffer
unfolding copy_bytes
copied_length zero stride packet j stop x buffer r e = ground arith
copied_length (suc rounds) stride packet j stop x buffer r e = ground (
  arith,
  length-set buffer x (packet j),
  copied_length rounds stride packet (j + stride) stop (x + 1) (set buffer x (packet j)) r,
)

ended_length :
    (o : Option (List ℕ × ℕ)) (n : ℕ) (b : List ℕ)
    → ((r : List ℕ × ℕ) → o ≡ some r → length r.0 ≡ n)
    → end_string o ≡ some b
    → length b ≡ n
unfolding end_string
ended_length none n b h e = cc
ended_length (some (a, x)) n b h e = ground (arith, length-set a x 0, h (a, x))

-- What a header with a string leaves of the globals.
pub copied_string :
    (n stride : ℕ) (packet : Packet) (j stop : ℕ) (buffer b : List ℕ)
    → length buffer ≡ n
    → end_string (copy_bytes stop stride packet j stop 0 buffer) ≡ some b
    → length b ≡ n
copied_string n stride packet j stop buffer b h e =
    ended_length (copy_bytes stop stride packet j stop 0 buffer) n b
      (λ r f. copied_length stop stride packet j stop 0 buffer r f ∙ h) e

module _ (n m : ℕ) (packet : Packet) where
  name-IsInRange :
      (p q : Put) → IsInRange n m p.session → put_name packet p ≡ some q → IsInRange n m q.session
  unfolding put_name
  name-IsInRange p q v e =
      let stop = head_len packet p.i + p.i in
      ground (
        arith,
        copied_string n 2 packet (p.i + 4) stop p.session.buffer_1 q.session.buffer_1 v.name_length,
      )

  body-IsInRange :
      (p q : Put) → IsInRange n m p.session → put_body packet p ≡ some q → IsInRange n m q.session
  unfolding put_body
  body-IsInRange p q v e =
      let stop = head_len packet p.i + p.i in
      ground (
        arith,
        copied_string m 1 packet (p.i + 3) stop p.session.buffer_2 q.session.buffer_2
            v.contents_length,
      )

  size-IsInRange : (p : Put) → IsInRange n m p.session → IsInRange n m (put_size packet p).session
  unfolding put_size
  size-IsInRange p v = ground arith

  signal-IsInRange :
      (s : Session) (len : ℕ) → IsInRange n m s → IsInRange n m (l2cap_signal s packet len)
  unfolding l2cap_signal info_req conn_req conf_req_case conf_req queue_packet
  signal-IsInRange s len v = ground arith

  -- Whatever the packet holds.
  pub IsInRange-IsStable : IsStable (IsInRange n m) packet
  unfolding queue_packet
  IsInRange-IsStable = record {
    queue = λ bs s v. ground arith;
    name = name-IsInRange;
    size = size-IsInRange;
    body = body-IsInRange;
    signal = λ s len acl sig. signal-IsInRange s len;
  }

start-IsInRange :
    (buffer_1 buffer_2 : List ℕ)
    → IsInRange (length buffer_1) (length buffer_2) (set_dir buffer_1 buffer_2)
unfolding set_dir
start-IsInRange buffer_1 buffer_2 = ground arith

packets-IsStable :
    (n m : ℕ) (packets : List (Packet × ℕ)) → All (λ x. IsStable (IsInRange n m) x.0) packets
packets-IsStable n m [] = tt
packets-IsStable n m ((packet, len) ∷ rest) =
    (IsInRange-IsStable n m packet, packets-IsStable n m rest)

-- Whatever packets the callback is handed from the start on, if it returns from all of them: the
-- channels, the MTU and the file size are in the range of their C types, the caller's two arrays
-- have the lengths that they had, `connected` is still 0 and `obex_conn_id` 1.
pub serve-IsInRange :
    (buffer_1 buffer_2 : List ℕ) (packets : List (Packet × ℕ))
    → Returned
        (IsInRange (length buffer_1) (length buffer_2))
        (serve (set_dir buffer_1 buffer_2) packets)
serve-IsInRange buffer_1 buffer_2 packets =
    serve-kept (IsInRange (length buffer_1) (length buffer_2)) packets (set_dir buffer_1 buffer_2)
      (packets-IsStable _ _ packets) (start-IsInRange buffer_1 buffer_2)
