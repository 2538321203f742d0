-- ===== src/Bt/Protocol/Discovery.antt =====
-- The service discovery of `l2cap_cmd_handler` (blue/bt_main.c): its two service records as data
-- elements of the Bluetooth specification, and the answers that hold them.
pub mod Answers
use hydroponic_closet.Prelude.{
  ℕ, ◌/◌, List, [], ◌∷◌, ◌++◌, length, drop, ◌&&◌, ◌||◌, ◌==◌, if◌then◌else◌, u8, u16,
}
use hydroponic_closet.Bt.State.{Packet, word}
use hydroponic_closet.Bt.Framing.Format.{be16, l2cap_frame, acl_packet}
use hydroponic_closet.Bt.Framing.Discovery.{answer}

mutual
  pub data Element : Type 0 where
    uint8 uint16 uint32 uuid boolean : ℕ → Element
    text : List ℕ → Element
    sequence long_sequence : Elements → Element  -- with its length in one byte, or in two

  pub data Elements : Type 0 where
    nil : Elements
    cons : Element → Elements → Elements

-- A type, a length where the type does not tell it, and the value, its highest byte first.
unfoldable mutual
  pub element_bytes : Element → List ℕ
  element_bytes (uint8 n) = 0x08 ∷ u8 n ∷ []
  element_bytes (uint16 n) = 0x09 ∷ be16 n
  element_bytes (uint32 n) = 0x0a ∷ be16 (n / 65536) ++ be16 n
  element_bytes (uuid n) = 0x19 ∷ be16 n
  element_bytes (boolean n) = 0x28 ∷ u8 n ∷ []
  element_bytes (text cs) = 0x25 ∷ u8 (length cs) ∷ cs
  element_bytes (sequence es) = let bs = elements_bytes es in 0x35 ∷ u8 (length bs) ∷ bs
  element_bytes (long_sequence es) = let bs = elements_bytes es in 0x36 ∷ be16 (length bs) ++ bs

  pub elements_bytes : Elements → List ℕ
  elements_bytes nil = []
  elements_bytes (cons e es) = element_bytes e ++ elements_bytes es

abbrev one : Element → Elements
one e = cons e nil

-- An attribute is its number and its value.
abbrev attribute : ℕ → Element → Elements → Elements
attribute number value rest = cons (uint16 number) (cons value rest)

abbrev formats : Elements
formats = cons (uint8 1) (
    cons (uint8 2)
      (cons (uint8 3) (cons (uint8 4) (cons (uint8 5) (cons (uint8 6) (one (uint8 255)))))))

-- Object push, over L2CAP, RFCOMM on channel 9 and OBEX, in the public browse group, by the profile
-- of version 1.2, also at the L2CAP port 0x1009, with the file formats that it takes.
abbrev pub obex_service : Element
obex_service = sequence (
    one (
      sequence (
        attribute 0x0000 (uint32 0x0001000e) (
          attribute 0x0001 (sequence (one (uuid 0x1105))) (
            attribute 0x0004
              (sequence (
                cons (sequence (one (uuid 0x0100))) (
                  cons (sequence (cons (uuid 0x0003) (one (uint8 9))))
                    (one (sequence (one (uuid 0x0008)))))))
              (attribute 0x0005 (sequence (one (uuid 0x1002))) (
                attribute 0x0009
                  (sequence (one (sequence (cons (uuid 0x1105) (one (uint16 0x0102))))))
                  (attribute 0x0100
                    (text (
                      b'O' ∷ b'b' ∷ b'j' ∷ b'e' ∷ b'c' ∷ b't' ∷ b' ' ∷ b'P' ∷ b'u' ∷ b's' ∷ b'h'
                      ∷ []))
                    (attribute 0x0200 (uint16 0x1009)
                      (attribute 0x0303 (sequence formats) nil))))))))))

-- The identification of the device, by version 1.3 of its profile: the vendor 0x0075, the product
-- 0x0100 in version 2.0.1, the numbers being those of the Bluetooth SIG.
abbrev pub device_service : Element
device_service = sequence (
    one (
      long_sequence (
        attribute 0x0000 (uint32 0x00010002) (
          attribute 0x0001 (sequence (one (uuid 0x1200))) (
            attribute 0x0200 (uint16 0x0103) (
              attribute 0x0201 (uint16 0x0075) (
                attribute 0x0202 (uint16 0x0100) (
                  attribute 0x0203 (uint16 0x0201)
                    (attribute 0x0204 (boolean 1) (attribute 0x0205 (uint16 0x0001) nil))))))))))

-- The answer that holds a record, with the number of the request, as the controller gets it.
abbrev pub record_frame : Packet → ℕ → Element → List ℕ
record_frame packet cid e = drop 2 (
    acl_packet (u16 (word packet 2 1))
      (l2cap_frame cid (answer (word packet 11 10) (element_bytes e))))

-- A request for the attributes of L2CAP or of object push gets the record of object push, one for
-- those of the device its identification. Nothing else is answered.
unfoldable pub found_records : Packet → ℕ → List (List ℕ)
found_records packet cid =
    if packet 9 == 0x06
    then (if packet 17 == 0x01 && packet 18 == 0x00 || packet 17 == 0x11 && packet 18 == 0x05
        then record_frame packet cid obex_service ∷ []
        else if packet 17 == 0x12 && packet 18 == 0x00
        then record_frame packet cid device_service ∷ []
        else [])
    else []
