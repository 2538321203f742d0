-- ===== src/App/Interleaved.antt =====
-- The loop of `app_main` (src/main/main.cpp) that waits for the credentials, interleaved with the
-- Bluetooth callback, which may be handed a packet between any two of its statements. A call of the
-- C library is one step, and so is the callback, which the Bluetooth task runs to its end.
pub mod Provenance
pub mod Lost
pub mod Atomic
pub mod Quiet
use hydroponic_closet.Prelude.{
  ℕ, Bool, true, false, ◌≡◌, Option, none, some, List, set, if◌then◌else◌,
}
use hydroponic_closet.Bt.State.{Packet, Session, done}
use hydroponic_closet.Bt.Handler.{host_rcv_pkt}
use hydroponic_closet.Closet.Credentials.{c_string, same_string, Credentials, wifi_config}

-- The statement that is next: strcmp, sscanf, the body of the `if`, the two assignments to the
-- arrays, vTaskDelay with the test of `salir`, or the first one behind the loop.
pub data Pc : Type 0 where
  at_name at_text at_success at_content at_fi at_delay left : Pc

pub record Loop : Type 0 where
  pub pc : Pc
  pub session : Session  -- its arrays are `fi` and `content`
  pub read : Option Credentials  -- what sscanf assigned to `ssid` and `pass`, if both
  pub credentials_recived : Bool
  pub salir : Bool
  pub enabled : Bool  -- the controller

abbrev pub entered : Session → Loop
entered s = record {
  pc = at_name;
  session = s;
  read = none;
  credentials_recived = false;
  salir = true;
  enabled = true;
}

-- The next statement of the loop, `scan` being sscanf. In `*fi = *content = '\0'` the assignment on
-- the right comes first.
unfoldable pub advance : (List ℕ → Option Credentials) → Pc → Loop → Loop
advance scan at_name l =
    if same_string (c_string l.session.buffer_1) wifi_config
    then record l { pc = at_text }
    else record l { pc = at_content }
advance scan at_text l = elim (scan (c_string l.session.buffer_2)) [
  | none ↦ record l { pc = at_content }
  | some c ↦ record l { pc = at_success; read = some c }
]
advance scan at_success l = record l {
  pc = at_content;
  credentials_recived = true;
  salir = false;
  enabled = false;
}
advance scan at_content l = record l {
  pc = at_fi;
  session = record l.session { buffer_2 = set l.session.buffer_2 0 0 };
}
advance scan at_fi l = record l {
  pc = at_delay;
  session = record l.session { buffer_1 = set l.session.buffer_1 0 0 };
}
advance scan at_delay l = record l { pc = if l.salir then at_name else left }
advance scan left l = l

module _ (scan : List ℕ → Option Credentials) where
  pub data Step (l : Loop) : Loop → Type 0 where
    statement : Step l (advance scan l.pc l)
    packet :
        (p : Packet) (len : ℕ) {s : Session}
        → l.enabled ≡ true
        → host_rcv_pkt l.session p len ≡ done s
        → Step l (record l { session = s })

  pub data Runs (l : Loop) : Loop → Type 0 where
    stay : Runs l l
    onward : {m n : Loop} → Runs l m → Step m n → Runs l n
