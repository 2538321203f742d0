-- ===== src/Bt/Transport/Fifo.antt =====
-- The order of the packets through the queue.
use mathlib.Core.List.{append_assoc, map-append}
use hydroponic_closet.Prelude.{
  ℕ, ◌≡◌, refl, sym, ap, ◌∙◌, Bool, true, false, List, [], ◌∷◌, ◌++◌, some, map, on_some,
}
use hydroponic_closet.Bt.Transport.{
  Queue, payload, Action, host_attempt, advert_attempt, send_round, Link, attempt_host,
  attempt_advert, send, act, run,
}

module _ (api : Queue) where
  open api use {
    Q, held, x_queue_send, x_queue_receive, send_some, receive_some, receive_none, send_room,
  }

  -- What was delivered and what the queue holds are, in order, what the queue took.
  pub record IsFifo (l : Link api) : Type 0 where
    pub in_order : l.delivered ++ map payload (held l.queue) ≡ map payload l.accepted

  accept :
      (l m : Link api) (p : List ℕ)
      → IsFifo l
      → x_queue_send p l.queue ≡ some m.queue
      → m.accepted ≡ l.accepted ++ p ∷ []
      → m.delivered ≡ l.delivered
      → IsFifo m
  accept l m p v e a d = record {
    in_order =
        rw
          (
            d,
            a,
            send_some p l.queue m.queue e,
            map-append payload (held l.queue) (p ∷ []),
            map-append payload l.accepted (p ∷ []),
          )
          (sym (append_assoc l.delivered (map payload (held l.queue)) (payload p ∷ []))
            ∙ ap (λ r. r ++ payload p ∷ []) v.in_order);
  }

  hand_over :
      (l m : Link api) (p : List ℕ)
      → IsFifo l
      → x_queue_receive l.queue ≡ some (p, m.queue)
      → m.accepted ≡ l.accepted
      → m.delivered ≡ l.delivered ++ payload p ∷ []
      → IsFifo m
  hand_over l m p v e a d = record {
    in_order =
        rw (a, d)
          (append_assoc l.delivered (payload p ∷ []) (map payload (held m.queue))
            ∙ ap (λ h. l.delivered ++ map payload h) (sym (receive_some l.queue m.queue p e))
            ∙ v.in_order);
  }

  attempt_host-IsFifo :
      (ps : List (List ℕ)) (l : Link api) → IsFifo l → IsFifo (attempt_host api ps l)
  unfolding attempt_host
  attempt_host-IsFifo [] l v = v
  attempt_host-IsFifo (p ∷ ps) l v =
      on_some IsFifo (x_queue_send p l.queue) (λ _. v) (λ q e. accept l _ p v e refl refl)

  attempt_advert-IsFifo :
      (ps : List (List ℕ)) (l : Link api) → IsFifo l → IsFifo (attempt_advert api ps l)
  unfolding attempt_advert
  attempt_advert-IsFifo [] l v = v
  attempt_advert-IsFifo (p ∷ ps) l v =
      on_some IsFifo (x_queue_send p l.queue) (λ _. v) (λ q e. accept l _ p v e refl refl)

  send-IsFifo : (available : Bool) (l : Link api) → IsFifo l → IsFifo (send api available l)
  unfolding send
  send-IsFifo false l v = v
  send-IsFifo true l v =
      on_some IsFifo (x_queue_receive l.queue) (λ _. v) (λ (p, q) e. hand_over l _ p v e refl refl)

  act-IsFifo : (a : Action) (l : Link api) → IsFifo l → IsFifo (act api a l)
  unfolding act
  act-IsFifo host_attempt l v = attempt_host-IsFifo l.host l v
  act-IsFifo advert_attempt l v = attempt_advert-IsFifo l.advert l v
  act-IsFifo (send_round available) l v = send-IsFifo available l v

  -- Under any schedule of the two tasks that queue packets and the one that sends them: if at the
  -- start the payloads delivered, followed by those of the packets that the queue holds, are the
  -- payloads of the packets that the queue has accepted, in order, then they are so at the end.
  pub run-IsFifo : (as' : List Action) (l : Link api) → IsFifo l → IsFifo (run api as' l)
  unfolding run
  run-IsFifo [] l v = v
  run-IsFifo (a ∷ as') l v = run-IsFifo as' (act api a l) (act-IsFifo a l v)
