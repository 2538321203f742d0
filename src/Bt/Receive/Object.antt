-- ===== src/Bt/Receive/Object.antt =====
-- An OBEX PUT (`obex_ftp` in blue/bt_main.c) as a list of items, and the file that a receiver keeps of
-- them, without arrays and offsets.
pub mod Whole
use hydroponic_closet.Prelude.{
  ℕ, zero, suc, ◌+◌, ◌-◌, ◌*◌, ◌/◌, ◌≡◌, ◌≢◌, refl, ◌∙◌, ap, List, [], ◌∷◌, ◌++◌, Option, none,
  some, arith, ltb, ◌==◌, if◌then◌else◌, Bool-cases, inl, inr, on_some, if_both, drop, length, ◌<◌,
  bit_and,
}
use hydroponic_closet.Bt.State.{Packet, Session}
use hydroponic_closet.Bt.Put.{
  Put, Header, PutEnd, finished, head_len, put_name, put_size, put_body, put_reply, put_step,
  put_loop,
}
use hydroponic_closet.Bt.Receive.Copy.{gather}
use hydroponic_closet.Bt.Receive.Stored.{name_chars, body_bytes, put_name_lem, put_body_lem}
use hydroponic_closet.Bt.Receive.Size.{put_size_lem}
use hydroponic_closet.Bt.Receive.Rounds.{advance, put_step-advance}
use hydroponic_closet.Closet.Credentials.{c_string}
use hydroponic_closet.Closet.Credentials.Received.{c_string-closed}

pub data Item : Type 0 where
  file_name contents : List ℕ → Item
  file_size : ℕ → Item
  no_part : Item

-- What a receiver keeps: two texts, each up to its first zero, and the size.
pub record ReceivedFile : Type 0 where
  pub name : List ℕ
  pub text : List ℕ
  pub size : ℕ

abbrev pub received_file : Session → ReceivedFile
received_file s = record {
  name = c_string s.buffer_1;
  text = c_string s.buffer_2;
  size = s.file_len;
}

-- Each part replaces the one before it.
abbrev pub receive : ReceivedFile → Item → ReceivedFile
receive f (file_name cs) = record f { name = c_string cs }
receive f (contents bs) = record f { text = c_string bs }
receive f (file_size n) = record f { size = n }
receive f no_part = f

abbrev pub receive_all : ReceivedFile → List Item → ReceivedFile
receive_all f [] = f
receive_all f (x ∷ xs) = receive_all (receive f x) xs

-- The header at `i`: the low bytes of the characters behind three bytes, the bytes behind three
-- bytes, or a number of four bytes, the highest first.
abbrev pub item_at : Packet → ℕ → Item
item_at packet i =
    if packet i == 0x01
    then file_name (gather ((head_len packet i - 3) / 2) 2 packet (i + 4))
    else if packet i == 0xc3
    then file_size
        (((packet (i + 1) * 256 + packet (i + 2)) * 256 + packet (i + 3)) * 256 + packet (i + 4))
    else if packet i == 0x48
    then contents (gather (head_len packet i - 3) 1 packet (i + 3))
    else no_part

-- The items from `i` on, as many as `rounds` at most.
unfoldable pub items : ℕ → Packet → ℕ → ℕ → List Item
items zero packet len i = []
items (suc rounds) packet len i =
    let rest = items rounds packet len (i + advance packet i) in
    if ltb (i + 2) len then item_at packet i ∷ rest else []

-- The items that a packet on the OBEX channel holds: those of a PUT in an information frame.
abbrev pub items_in : Packet → ℕ → List Item
items_in packet len =
    if bit_and (packet 9) 1 == 0
    then (if bit_and (packet 11) 0b01111111 == 2 then items (suc len) packet len 14 else [])
    else []

module _ (h : Header) (packet : Packet) (p : Put) where
  -- What a round leaves for the receiver, if it writes past no array.
  Stores : Item → Option Put → Type 0
  Stores x o =
      (q : Put) → o ≡ some q → received_file q.session ≡ receive (received_file p.session) x

  name-Stores :
      Stores (file_name (gather (name_chars packet p) 2 packet (p.i + 4))) (put_name packet p)
  unfolding Stores
  name-Stores q e = ground (
    arith,
    put_name_lem packet p,
    c_string-closed (gather (name_chars packet p) 2 packet (p.i + 4))
        (drop (suc (name_chars packet p)) p.session.buffer_1),
  )

  body-Stores :
      Stores (contents (gather (body_bytes packet p) 1 packet (p.i + 3))) (put_body packet p)
  unfolding Stores
  body-Stores q e = ground (
    arith,
    put_body_lem packet p,
    c_string-closed (gather (body_bytes packet p) 1 packet (p.i + 3))
        (drop (suc (body_bytes packet p)) p.session.buffer_2),
  )

  size-Stores :
      ((j : ℕ) → packet j < 256)
      → Stores
          (file_size (
            ((packet (p.i + 1) * 256 + packet (p.i + 2)) * 256 + packet (p.i + 3)) * 256
            + packet (p.i + 4)))
          (some (put_size packet p))
  unfolding Stores put_size
  size-Stores bytes q e = ground (arith, put_size_lem packet p bytes)

  other-Stores :
      packet p.i ≢ 0x01
      → packet p.i ≢ 0xc3
      → packet p.i ≢ 0x48
      → Stores no_part (put_step h packet p)
  unfolding Stores put_step put_reply
  other-Stores a b c q e = ground arith

  is_name : packet p.i ≡ 0x01 → put_step h packet p ≡ put_name packet p
  unfolding put_step
  is_name e = ground arith

  is_size : packet p.i ≡ 0xc3 → put_step h packet p ≡ some (put_size packet p)
  unfolding put_step
  is_size e = ground arith

  is_body : packet p.i ≡ 0x48 → put_step h packet p ≡ put_body packet p
  unfolding put_step
  is_body e = ground arith

  put_step-Stores : ((j : ℕ) → packet j < 256) → Stores (item_at packet p.i) (put_step h packet p)
  unfolding Stores
  put_step-Stores bytes = elim (Bool-cases (packet p.i == 0x01)) [
    | inl e ↦ rw (e, is_name (ground arith)) name-Stores
    | inr e ↦ elim (Bool-cases (packet p.i == 0xc3)) [
      | inl f ↦ rw (e, f, is_size (ground arith)) (size-Stores bytes)
      | inr f ↦ elim (Bool-cases (packet p.i == 0x48)) [
        | inl g ↦ rw (e, f, g, is_body (ground arith)) body-Stores
        | inr g ↦ rw (e, f, g) (other-Stores (ground arith) (ground arith) (ground arith))
      ]
    ]
  ]

module _ (h : Header) (packet : Packet) (len : ℕ) (bytes : (j : ℕ) → packet j < 256) where
  -- What the loop leaves for the receiver.
  Leaves : ℕ → Put → PutEnd → Type 0
  Leaves rounds p e =
      (q : Put)
      → e ≡ finished q
      → received_file q.session
        ≡ receive_all (received_file p.session) (items rounds packet len p.i)

  put_loop-Leaves : (rounds : ℕ) (p : Put) → Leaves rounds p (put_loop rounds h packet len p)
  unfolding Leaves Stores put_loop items
  put_loop-Leaves zero p = λ q e. cc
  put_loop-Leaves (suc rounds) p = elim (Bool-cases (ltb (p.i + 2) len)) [
    | inl more ↦
        rw (put_loop, more)
          (on_some
            (λ e.
              (q : Put)
              → e ≡ finished q
              → received_file q.session
                ≡ receive_all (receive (received_file p.session) (item_at packet p.i))
                    (items rounds packet len (p.i + advance packet p.i)))
            (put_step h packet p) (λ _ q e. cc)
            (λ r s.
              rw (← put_step-Stores h packet p bytes r s, ← put_step-advance h packet p r s)
                (put_loop-Leaves rounds r)))
    | inr over ↦ rw (put_loop, over) (λ q e. ground arith)
  ]
