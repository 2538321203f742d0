-- ===== src/App/Interleaved/Provenance/Flags.antt =====
-- What the statements of the loop that waits for the credentials (src/main/main.cpp) do to its flags,
-- and where they lead to sscanf.
use hydroponic_closet.Prelude.{
  ℕ, ◌≡◌, ◌≢◌, refl, ◌⊎◌, inl, arith, true, false, List, Option, none, some, if_both, on_some,
}
use hydroponic_closet.Bt.State.{Session}
use hydroponic_closet.Closet.Credentials.{c_string, same_string, Credentials, wifi_config}
use hydroponic_closet.App.Interleaved.{
  Pc, at_name, at_text, at_success, at_content, at_fi, at_delay, left, Loop, entered, advance,
  statement, packet, Runs, stay, onward,
}

module _ (scan : List ℕ → Option Credentials) where
  -- What the statements keep.
  pub record Sound (l : Loop) : Type 0 where
    pub success : l.pc ≡ at_success → l.read ≢ none
    pub salir : l.salir ≡ false → l.read ≢ none
    pub recived : l.salir ≡ false → (l.credentials_recived ≡ true) × (l.enabled ≡ false)
    pub left : l.pc ≡ left → l.salir ≡ false

  -- Where the loop goes on with the same values.
  same :
      (l : Loop) (pc : Pc) (t : Session)
      → pc ≢ at_success
      → (pc ≡ left → l.salir ≡ false)
      → Sound l
      → Sound (record l { pc = pc; session = t })
  same l pc t a b k = record {
    success = λ x. elim (a x) [ ];
    salir = k.salir;
    recived = k.recived;
    left = b;
  }

  advance-Sound : (l : Loop) (pc : Pc) → l.pc ≡ pc → Sound l → Sound (advance scan pc l)
  unfolding advance
  advance-Sound l at_name e k =
      if_both Sound (same_string (c_string l.session.buffer_1) wifi_config)
        (λ g. same l at_text l.session (λ x. cc) (λ x. cc) k)
        (λ g. same l at_content l.session (λ x. cc) (λ x. cc) k)
  advance-Sound l at_text e k =
      on_some Sound (scan (c_string l.session.buffer_2))
        (λ g. same l at_content l.session (λ x. cc) (λ x. cc) k)
        (λ c g. record {
          success = λ x y. cc;
          salir = λ x y. cc;
          recived = k.recived;
          left = λ x. cc;
        })
  advance-Sound l at_success e k = record {
    success = λ x. cc;
    salir = λ x. k.success e;
    recived = λ x. (refl, refl);
    left = λ x. refl;
  }
  advance-Sound l at_content e k = same l at_fi _ (λ x. cc) (λ x. cc) k
  advance-Sound l at_fi e k = same l at_delay _ (λ x. cc) (λ x. cc) k
  advance-Sound l at_delay e k =
      if_both (λ p. Sound (record l { pc = p })) l.salir
        (λ g. same l at_name l.session (λ x. cc) (λ x. cc) k)
        (λ g. same l left l.session (λ x. cc) (λ x. g) k)
  advance-Sound l left e k = k

  -- A statement leads to sscanf only from strcmp, and only by the name.
  pub to_text :
      (l : Loop) (pc : Pc)
      → (advance scan pc l).pc ≡ at_text
      → l.pc ≡ pc
      → (pc ≡ at_name)
        × (same_string (c_string l.session.buffer_1) wifi_config ≡ true)
        × (advance scan pc l ≡ record l { pc = at_text })
  unfolding advance
  to_text l at_name e f = ground arith
  to_text l at_text e f = ground arith
  to_text l at_success e f = cc
  to_text l at_content e f = cc
  to_text l at_fi e f = cc
  to_text l at_delay e f = ground arith
  to_text l left e f = cc

  -- A statement assigns credentials only where sscanf finds them.
  pub new_read :
      (l : Loop) (pc : Pc) (c : Credentials)
      → (advance scan pc l).read ≡ some c
      → (l.read ≡ some c) ⊎ ((pc ≡ at_text) × (scan (c_string l.session.buffer_2) ≡ some c))
  unfolding advance
  new_read l at_name c e = ground arith
  new_read l at_text c e = ground arith
  new_read l at_success c e = inl e
  new_read l at_content c e = inl e
  new_read l at_fi c e = inl e
  new_read l at_delay c e = inl e
  new_read l left c e = inl e

  pub Runs-Sound : (s : Session) (l : Loop) → Runs scan (entered s) l → Sound l
  Runs-Sound s l stay = record {
    success = λ x. cc;
    salir = λ x. cc;
    recived = λ x. cc;
    left = λ x. cc;
  }
  Runs-Sound s l (onward {m} r statement) = advance-Sound m m.pc refl (Runs-Sound s m r)
  Runs-Sound s l (onward {m} r (packet p len on e)) =
      let k = Runs-Sound s m r in
      record { success = k.success; salir = k.salir; recived = k.recived; left = k.left }
