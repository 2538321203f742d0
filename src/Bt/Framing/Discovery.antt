-- ===== src/Bt/Framing/Discovery.antt =====
-- What service discovery answers: the framing of each answer and of the data element in it.
use hydroponic_closet.Prelude.{
  ℕ, zero, suc, ◌+◌, ◌*◌, ◌-◌, ◌/◌, ◌%◌, ◌^◌, ◌≡◌, refl, Bool, true, false, ◌&&◌, ◌||◌, List, [],
  ◌∷◌, ◌++◌, length, take, drop, leb, ltb, ◌==◌, if◌then◌else◌, if_both, u16,
}
use hydroponic_closet.Bt.Stream.{zeroed, overlay}
use hydroponic_closet.Bt.State.{Packet, Session, word}
use hydroponic_closet.Bt.Sdp.{obex_push, pnp, services, device_id, sdp_request}
use hydroponic_closet.Bt.Framing.Format.{be16, le16, acl_packet, l2cap_frame, Added}
use hydroponic_closet.Bt.Framing.Signals.{reply-Added, Added-none}

abbrev big_endian : ℕ → List ℕ → ℕ
big_endian n [] = n
big_endian n (b ∷ bs) = big_endian (n * 256 + b) bs

-- The head of a data element. The low three bits of its first byte say how the size of the content
-- is given: 0 to 4 are 1, 2, 4, 8 and 16 bytes, 5 to 7 a size field of one, two and four bytes. The
-- other bits say what it is; 6 and 7 are sequences of elements.
abbrev pub head_size : ℕ → ℕ
head_size b = if ltb (b % 8) 5 then 1 else if b % 8 == 5 then 2 else if b % 8 == 6 then 3 else 5

abbrev pub content_size : ℕ → List ℕ → ℕ
content_size b bs = if ltb (b % 8) 5 then 2 ^ (b % 8) else big_endian 0 (take (head_size b - 1) bs)

abbrev pub is_sequence : ℕ → Bool
is_sequence b = b / 8 == 6 || b / 8 == 7

-- Bytes that are complete data elements one behind the other, at every depth.
unfoldable pub are_elements : ℕ → List ℕ → Bool
are_elements zero bs = false
are_elements (suc fuel) [] = true
are_elements (suc fuel) (b ∷ bs) =
    let h = head_size b in
    let n = content_size b bs in
    leb (h + n) (length (b ∷ bs))
    && are_elements fuel (if is_sequence b then take n (drop h (b ∷ bs)) else [])
    && are_elements fuel (drop (h + n) (b ∷ bs))

-- An answer: the code 7, the number of the request, the length of the parameters; the parameters
-- are the length of the attribute list, that list and no continuation.
abbrev pub answer : ℕ → List ℕ → List ℕ
answer number attributes =
    7 ∷ le16 number
    ++ be16 (length attributes + 3)
    ++ be16 (length attributes)
    ++ attributes
    ++ 0 ∷ []

-- An entry of the queue that starts with the packet of an answer, zeros behind it.
pub record IsAnswer (flags cid number : ℕ) (entry : List ℕ) : Type 0 where
  pub attributes : List ℕ
  pub layout :
      entry ≡ overlay (acl_packet flags (l2cap_frame cid (answer number attributes))) zeroed.cells
  pub elements : are_elements 60 attributes ≡ true

obex_push-elements : are_elements 60 obex_push ≡ true
unfolding are_elements
obex_push-elements = refl

pnp-elements : are_elements 60 pnp ≡ true
unfolding are_elements
pnp-elements = refl

module _ (s : Session) (packet : Packet) where
  services-IsAnswer :
      (flags : ℕ)
      → IsAnswer flags s.src_cid
          (word packet 11 10)
          (overlay (services flags s.src_cid packet) zeroed.cells)
  unfolding services
  services-IsAnswer flags = record {
    attributes = obex_push;
    layout = refl;
    elements = obex_push-elements;
  }

  device_id-IsAnswer :
      (flags : ℕ)
      → IsAnswer flags s.src_cid
          (word packet 11 10)
          (overlay (device_id flags s.src_cid packet) zeroed.cells)
  unfolding device_id
  device_id-IsAnswer flags = record { attributes = pnp; layout = refl; elements = pnp-elements }

  -- Whatever comes in for service discovery, what is queued stands behind what was, and is a
  -- complete ACL packet with the flags of the request, right ACL and L2CAP lengths and the channel
  -- of the peer. In it is a service attribute answer with the number of the request and right
  -- lengths, whose attribute list is a complete data element, down to the elements in it.
  pub sdp_request-Added :
      Added
        (IsAnswer (u16 (word packet 2 1)) s.src_cid (word packet 11 10))
        s
        (sdp_request s packet)
  unfolding sdp_request
  sdp_request-Added =
      let K = Added (IsAnswer (u16 (word packet 2 1)) s.src_cid (word packet 11 10)) s in
      if_both K (packet 9 == 0x06)
        (λ _.
          if_both K
            (packet 17 == 0x01 && packet 18 == 0x00 || packet 17 == 0x11 && packet 18 == 0x05)
            (λ _. reply-Added s _ (services-IsAnswer _) (Added-none s))
            (λ _.
              if_both K (packet 17 == 0x12 && packet 18 == 0x00)
                (λ _. reply-Added s _ (device_id-IsAnswer _) (Added-none s)) (λ _. Added-none s)))
        (λ _. Added-none s)
