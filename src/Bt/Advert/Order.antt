-- ===== src/Bt/Advert/Order.antt =====
-- The order of the commands of the advertising task (bt_main.c).
use hydroponic_closet.Prelude.{
  ℕ, zero, suc, ◌+◌, ◌≡◌, refl, ap, ◌∙◌, Bool, true, false, List, [], ◌∷◌, ◌++◌, map, replicate,
  take, arith,
}
use hydroponic_closet.Bt.Stream.{overlay}
use hydroponic_closet.Bt.Transport.{payload}
use hydroponic_closet.Bt.Hci.{make_cmd_reset, make_cmd_change_local_name, make_cmd_set_scan_mode}
use hydroponic_closet.Bt.Framing.Format.{command}
use hydroponic_closet.Bt.Advert.{Advert, tag, advert_start, hci_cmd_send, advertise, bt_advt_task}

-- In how many rounds the controller took packets.
abbrev pub chances : List Bool → ℕ
chances [] = 0
chances (true ∷ rest) = suc (chances rest)
chances (false ∷ rest) = chances rest

-- The task after so many of them.
abbrev after : ℕ → Advert
after zero = advert_start
after (suc zero) = advertise true advert_start
after (suc (suc zero)) = advertise true (advertise true advert_start)
after (suc (suc (suc n))) = advertise true (advertise true (advertise true advert_start))

advertise-after : (n : ℕ) → advertise true (after n) ≡ after (suc n)
unfolding advertise hci_cmd_send
advertise-after zero = refl
advertise-after (suc zero) = refl
advertise-after (suc (suc zero)) = refl
advertise-after (suc (suc (suc n))) = refl

no_chance : (a : Advert) → advertise false a ≡ a
unfolding advertise
no_chance a = refl

bt_advt_task-after :
    (rounds : List Bool) (n : ℕ) → bt_advt_task rounds (after n) ≡ after (n + chances rounds)
unfolding bt_advt_task
bt_advt_task-after [] n = ap after (omega arith)
bt_advt_task-after (true ∷ rest) n =
    ap (bt_advt_task rest) (advertise-after n)
    ∙ bt_advt_task-after rest (suc n)
    ∙ ap after (omega arith)
bt_advt_task-after (false ∷ rest) n =
    ap (bt_advt_task rest) (no_chance (after n)) ∙ bt_advt_task-after rest n

-- A reset, the change of the device's name and the scan mode that lets others find it.
abbrev pub commands : List (List ℕ)
commands =
    command 0x0c03 [] ∷ command 0x0c13 (tag ++ replicate 239 0) ∷ command 0x0c1a (3 ∷ []) ∷ []

take_nil : (n : ℕ) → take {A = List ℕ} n [] ≡ []
take_nil zero = refl
take_nil (suc n) = refl

queued-after : (n : ℕ) → map payload (after n).queued ≡ take n commands
unfolding advertise hci_cmd_send make_cmd_reset make_cmd_change_local_name make_cmd_set_scan_mode
    overlay payload
queued-after zero = refl
queued-after (suc zero) = refl
queued-after (suc (suc zero)) = refl
queued-after (suc (suc (suc n))) = rw (take_nil n)

-- Whenever the controller takes packets, the payloads of what the task queues are the first of the
-- three commands, one for each round in which it took packets: a reset, the name padded with
-- zeros to 248 bytes, the scan mode, and nothing after these.
pub bt_advt_task_lem :
    (rounds : List Bool)
    → map payload (bt_advt_task rounds advert_start).queued ≡ take (chances rounds) commands
bt_advt_task_lem rounds =
    ap (λ (a : Advert). map payload (a.queued))
      (bt_advt_task-after rounds 0 ∙ ap after (omega arith))
    ∙ queued-after (chances rounds)
