-- ===== src/Bt/Framing/Loop.antt =====
-- What the loop over the headers of a PUT (bt_main.c) keeps, if each round does.
use mathlib.Core.Path.{subst}
use hydroponic_closet.Prelude.{
  ℕ, zero, suc, ◌+◌, ◌≡◌, inl, inr, Option, some, ltb, ◌==◌, on_some, if_both, Bool-cases,
}
use hydroponic_closet.Bt.State.{Packet}
use hydroponic_closet.Bt.Obex.{write_srm, write_end}
use hydroponic_closet.Bt.Put.{
  Put, Header, PutEnd, finished, head_len, put_name, put_size, put_body, put_reply, put_step,
  put_loop,
}

module _ (P : Put → Type 0) where
  abbrev pub Kept : Option Put → Type 0
  Kept o = (q : Put) → o ≡ some q → P q

  pub Kept-some : (p : Put) → P p → Kept (some p)
  Kept-some p k q e = (let same : p ≡ q = cc in subst P same k)

  abbrev pub KeptEnd : PutEnd → Type 0
  KeptEnd e = (q : Put) → e ≡ finished q → P q

  pub put_loop-Kept :
      (h : Header) (packet : Packet)
      → ((p : Put) → P p → Kept (put_step h packet p))
      → (rounds len : ℕ) (p : Put) → P p
      → KeptEnd (put_loop rounds h packet len p)
  unfolding put_loop
  put_loop-Kept h packet each zero len p k = λ q e. cc
  put_loop-Kept h packet each (suc rounds) len p k = elim (Bool-cases (ltb (p.i + 2) len)) [
    | inl more ↦
        rw (put_loop, more)
          (on_some KeptEnd (put_step h packet p) (λ _ q e. cc)
            (λ q e. put_loop-Kept h packet each rounds len q (each p k q e)))
    | inr over ↦ rw (put_loop, over) (λ q e. (let same : p ≡ q = cc in subst P same k))
  ]

  -- A round of the loop, from what each kind of header does.
  pub put_step-Kept_cases :
      (h : Header) (packet : Packet) (p : Put)
      → P p
      → ((n : ℕ) → P (record p { i = p.i + n }))
      → Kept (put_name packet p)
      → P (put_size packet p)
      → Kept (put_body packet p)
      → Kept (
          put_reply
            (write_srm h.acl_flags p.session.src_cid h.obex_reqseq h.obex_txseq p.frame)
            2
            p)
      → Kept (
          put_reply
            (write_end h.acl_flags p.session.src_cid h.obex_reqseq h.obex_txseq p.frame)
            3
            p)
      → Kept (put_step h packet p)
  unfolding put_step
  put_step-Kept_cases h packet p k moved name size body srm ended =
      if_both Kept (packet p.i == 0xcb) (λ _. Kept-some _ (moved 5))
        (λ _.
          if_both Kept (packet p.i == 0x01) (λ _. name)
            (λ _.
              if_both Kept (packet p.i == 0xc3) (λ _. Kept-some _ size)
                (λ _.
                  if_both Kept (packet p.i == 0x48) (λ _. body)
                    (λ _.
                      if_both Kept (packet p.i == 0x42)
                        (λ _. Kept-some _ (moved (head_len packet p.i)))
                        (λ _.
                          if_both Kept (packet p.i == 0x97) (λ _. srm)
                            (λ _.
                              if_both Kept (packet p.i == 0x49) (λ _. ended)
                                (λ _. Kept-some p k)))))))
