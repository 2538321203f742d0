-- ===== src/Bt/Transport/Delivery.antt =====
-- When the packets of the callback reach the controller.
use mathlib.Core.Path.{subst}
use mathlib.Core.List.{append_assoc, map-append, append-nil}
use hydroponic_closet.Prelude.{
  ℕ, zero, suc, ◌-◌, ◌<◌, ◌≤◌, ◌≡◌, refl, sym, ap, ◌∙◌, true, List, [], ◌∷◌, ◌++◌, some, map,
  replicate, arith, length, length-append, length_zero, on_some,
}
use hydroponic_closet.Bt.Transport.{
  Queue, send_buffer_size, payload, Action, host_attempt, send_round, Link, attempt_host, send, act,
  run,
}

-- The callback tries to queue a packet after each round of `send`, once for each packet.
abbrev pub alternate : List (List ℕ) → List Action
alternate [] = []
alternate (p ∷ ps) = send_round true ∷ host_attempt ∷ alternate ps

module _ (api : Queue) where
  open api use {
    Q, held, x_queue_send, x_queue_receive, send_some, receive_some, receive_none, send_room,
  }

  abbrev sent : Link api → List (List ℕ)
  sent l = l.delivered ++ map payload (held l.queue)

  -- All that is delivered, held or still to be queued by the callback, in that order.
  pub total : Link api → List (List ℕ)
  total l = l.delivered ++ map payload (held l.queue) ++ map payload l.host

  -- What a round of `send` does when the controller takes a packet.
  record Sent (l m : Link api) : Type 0 where
    shorter : length (held m.queue) ≤ length (held l.queue) - 1
    same_host : m.host ≡ l.host
    same_accepted : m.accepted ≡ l.accepted
    same_total :
        m.delivered ++ map payload (held m.queue) ≡ l.delivered ++ map payload (held l.queue)

  hand_over :
      (l m : Link api) (p : List ℕ)
      → x_queue_receive l.queue ≡ some (p, m.queue)
      → m.host ≡ l.host
      → m.accepted ≡ l.accepted
      → m.delivered ≡ l.delivered ++ payload p ∷ []
      → Sent l m
  hand_over l m p e h a d =
      let r = receive_some l.queue m.queue p e in
      record {
        shorter = omega (arith, ap length r);
        same_host = h;
        same_accepted = a;
        same_total = rw d (
            append_assoc l.delivered (payload p ∷ []) (map payload (held m.queue))
            ∙ ap (λ h. l.delivered ++ map payload h) (sym r));
      }

  send-Sent : (l : Link api) → Sent l (send api true l)
  unfolding send
  send-Sent l =
      on_some (Sent l) (x_queue_receive l.queue)
        (λ e. record {
          shorter = rw (receive_none l.queue e) (omega arith);
          same_host = refl;
          same_accepted = refl;
          same_total = refl;
        })
        (λ (p, q) e. hand_over l _ p e refl refl refl)

  -- What an attempt of the callback does when there is room.
  record Queued (p : List ℕ) (ps : List (List ℕ)) (l m : Link api) : Type 0 where
    room : length (held m.queue) ≤ send_buffer_size
    rest : m.host ≡ ps
    taken : m.accepted ≡ l.accepted ++ p ∷ []
    added :
        m.delivered ++ map payload (held m.queue)
        ≡ l.delivered ++ map payload (held l.queue) ++ payload p ∷ []

  put_in :
      (l m : Link api) (p : List ℕ) (ps : List (List ℕ))
      → length (held l.queue) < send_buffer_size
      → x_queue_send p l.queue ≡ some m.queue
      → m.host ≡ ps
      → m.accepted ≡ l.accepted ++ p ∷ []
      → m.delivered ≡ l.delivered
      → Queued p ps l m
  put_in l m p ps v e h a d =
      let s = send_some p l.queue m.queue e in
      record {
        room = rw (s, length-append (held l.queue) (p ∷ [])) (omega (arith, v));
        rest = h;
        taken = a;
        added =
            rw (d, s, map-append payload (held l.queue) (p ∷ []))
              (sym (append_assoc l.delivered (map payload (held l.queue)) (payload p ∷ [])));
      }

  attempt_host-Queued :
      (l : Link api) (p : List ℕ) (ps : List (List ℕ))
      → l.host ≡ p ∷ ps
      → length (held l.queue) < send_buffer_size
      → Queued p ps l (attempt_host api l.host l)
  unfolding attempt_host
  attempt_host-Queued l p ps e v =
      let r = send_room p l.queue v in
      subst (λ h. Queued p ps l (attempt_host api h l)) (sym e)
        (on_some (Queued p ps l) (x_queue_send p l.queue) (λ n. absurd (cc (n, r.1)))
          (λ q f. put_in l _ p ps v f refl refl refl))

  -- After the callback's attempts nothing is left to queue.
  pub record Through (l m : Link api) : Type 0 where
    pub none_left : m.host ≡ []
    pub all_taken : m.accepted ≡ l.accepted ++ l.host
    pub room : length (held m.queue) ≤ send_buffer_size
    pub all_in : m.delivered ++ map payload (held m.queue) ≡ total l

  pub alternate-Through :
      (ps : List (List ℕ)) (l : Link api)
      → l.host ≡ ps
      → length (held l.queue) ≤ send_buffer_size
      → Through l (run api (alternate ps) l)
  unfolding run act total
  alternate-Through [] l e v = record {
    none_left = e;
    all_taken = rw e (sym (append-nil l.accepted));
    room = v;
    all_in = rw e (sym (append-nil (l.delivered ++ map payload (held l.queue))));
  }
  alternate-Through (p ∷ ps) l e v =
      let m = send api true l in
      let s = send-Sent l in
      let q = attempt_host-Queued m p ps (s.same_host ∙ e) (omega (arith, s.shorter, v)) in
      let t = alternate-Through ps (attempt_host api m.host m) q.rest q.room in
      record {
        none_left = t.none_left;
        all_taken =
            t.all_taken
            ∙ ap (λ h. (attempt_host api m.host m).accepted ++ h) q.rest
            ∙ ap (λ r. r ++ ps) (q.taken ∙ ap (λ r. r ++ p ∷ []) s.same_accepted)
            ∙ append_assoc l.accepted (p ∷ []) ps
            ∙ ap (λ h. l.accepted ++ h) (sym e);
        room = t.room;
        all_in =
            t.all_in
            ∙ ap (λ h. sent (attempt_host api m.host m) ++ map payload h) q.rest
            ∙ ap (λ r. r ++ map payload ps) (q.added ∙ ap (λ r. r ++ payload p ∷ []) s.same_total)
            ∙ append_assoc (sent l) (payload p ∷ []) (map payload ps)
            ∙ ap (λ h. sent l ++ map payload h) (sym e);
      }

  drained :
      (n : ℕ) (l : Link api)
      → length (held l.queue) ≤ n
      → (run api (replicate n (send_round true)) l).delivered
        ≡ l.delivered ++ map payload (held l.queue)
  unfolding run act
  drained zero l v = rw (length_zero (held l.queue) v) (sym (append-nil l.delivered))
  drained (suc n) l v =
      let s = send-Sent l in
      drained n (send api true l) (omega (arith, s.shorter, v)) ∙ s.same_total

  -- From a queue of at most SEND_BUFFER_SIZE packets: when the callback has tried once after each
  -- of as many rounds of `send` as it has packets, and `send` has gone on for SEND_BUFFER_SIZE
  -- rounds more, the controller, if it takes a packet in each round, has been handed the payloads
  -- of the packets that were held, then those of the callback's packets, all in order.
  pub all_delivered :
      (l : Link api)
      → length (held l.queue) ≤ send_buffer_size
      → (run api
          (replicate send_buffer_size (send_round true))
          (run api (alternate l.host) l)).delivered
        ≡ l.delivered ++ map payload (held l.queue) ++ map payload l.host
  unfolding total
  all_delivered l v =
      let t = alternate-Through l.host l refl v in
      drained send_buffer_size (run api (alternate l.host) l) t.room ∙ t.all_in
