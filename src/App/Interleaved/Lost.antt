-- ===== src/App/Interleaved/Lost.antt =====
-- Which files the loop that waits for the credentials takes (src/main/main.cpp), and which it loses
-- because they come in at the wrong moment.
use hydroponic_closet.Prelude.{
  ℕ, zero, suc, ◌<◌, ◌≡◌, ◌≢◌, refl, true, false, List, [], Option, some, length, length-set, set,
}
use hydroponic_closet.Closet.Credentials.{c_string, same_string, Credentials, wifi_config}
use hydroponic_closet.Closet.Credentials.Received.{cleared}
use hydroponic_closet.App.Interleaved.{at_name, at_content, at_fi, at_delay, left, Loop, advance}

-- The next statements of the loop, without a packet in between.
unfoldable pub statements : (List ℕ → Option Credentials) → ℕ → Loop → Loop
statements scan zero l = l
statements scan (suc n) l = statements scan n (advance scan l.pc l)

module _ (scan : List ℕ → Option Credentials) where
  advance-same :
      (l : Loop)
      → same_string (c_string l.session.buffer_1) wifi_config ≡ false
      → advance scan at_name l ≡ record l { pc = at_content }
  unfolding advance
  advance-same l e = rw e refl

  data Place (l : Loop) : Type 0 where
    clearing : l.pc ≡ at_content → Place l
    half_cleared : l.pc ≡ at_fi → Place l
    resting : l.pc ≡ at_delay → c_string l.session.buffer_1 ≡ [] → Place l
    looking : l.pc ≡ at_name → c_string l.session.buffer_1 ≡ [] → Place l

  -- The arrays are about to be cleared, or `fi` is.
  record Waits (l : Loop) : Type 0 where
    place : Place l
    salir : l.salir ≡ true
    not_recived : l.credentials_recived ≡ false
    room : 0 < length l.session.buffer_1

  Waits-advance : (l : Loop) → Waits l → Waits (advance scan l.pc l)
  unfolding advance same_string
  Waits-advance l w = elim w.place [
    | clearing e ↦ rw e (record {
      place = half_cleared refl;
      salir = w.salir;
      not_recived = w.not_recived;
      room = w.room;
    })
    | half_cleared e ↦ rw e (record {
      place = resting refl (cleared l.session.buffer_1 w.room);
      salir = w.salir;
      not_recived = w.not_recived;
      room = rw (length-set l.session.buffer_1 0 0) w.room;
    })
    | resting e n ↦
        rw (e, w.salir)
          (record {
            place = looking refl n;
            salir = refl;
            not_recived = w.not_recived;
            room = w.room;
          })
    | looking e n ↦
        rw (e, n)
          (record {
            place = clearing refl;
            salir = w.salir;
            not_recived = w.not_recived;
            room = w.room;
          })
  ]

  Waits-statements : (n : ℕ) (l : Loop) → Waits l → Waits (statements scan n l)
  unfolding statements
  Waits-statements zero l w = w
  Waits-statements (suc n) l w = Waits-statements n _ (Waits-advance l w)

  Place-ne-left : (l : Loop) → Place l → l.pc ≢ left
  Place-ne-left l (clearing e) f = cc
  Place-ne-left l (half_cleared e) f = cc
  Place-ne-left l (resting e n) f = cc
  Place-ne-left l (looking e n) f = cc

  -- Whatever file the callback has stored by the time that the loop, the test having failed before,
  -- is about to clear the arrays: without another packet the loop never takes the file's credentials
  -- nor ends, however many statements it runs.
  pub statements_lost :
      (n : ℕ) (l : Loop)
      → l.pc ≡ at_content
      → l.salir ≡ true
      → l.credentials_recived ≡ false
      → 0 < length l.session.buffer_1
      → let m = statements scan n l in (m.pc ≢ left) × (m.credentials_recived ≡ false)
  statements_lost n l e s c h =
      let w =
        Waits-statements n l
          (record { place = clearing e; salir = s; not_recived = c; room = h }) in
      (Place-ne-left _ w.place, w.not_recived)

  -- If the name "wifi.config" and a text in which sscanf finds credentials stand in the arrays while
  -- the loop pauses, it is left after seven statements without another packet: the credentials have
  -- been received, the controller is off, and both arrays start with a zero.
  pub statements_taken :
      (l : Loop) (c : Credentials)
      → l.pc ≡ at_delay
      → l.salir ≡ true
      → same_string (c_string l.session.buffer_1) wifi_config ≡ true
      → scan (c_string l.session.buffer_2) ≡ some c
      → statements scan 7 l ≡ record {
        pc = left;
        session = record l.session {
          buffer_1 = set l.session.buffer_1 0 0;
          buffer_2 = set l.session.buffer_2 0 0;
        };
        read = some c;
        credentials_recived = true;
        salir = false;
        enabled = false;
      }
  unfolding statements advance
  statements_taken l c e s n t = rw (e, s, n, t) refl
