-- ===== src/Tests/ListQueue.antt =====
-- A queue that is a list, with room for SEND_BUFFER_SIZE packets, and tasks that use it.
use hydroponic_closet.Prelude.{
  ℕ, ◌<◌, ◌≡◌, refl, List, [], ◌∷◌, ◌++◌, Option, none, some, length, ltb, if◌then◌else◌, arith,
}
use hydroponic_closet.Bt.Transport.{Queue, send_buffer_size, Link}

-- A queue that is a list.
abbrev pub push : List ℕ → List (List ℕ) → Option (List (List ℕ))
push p q = if ltb (length q) send_buffer_size then some (q ++ p ∷ []) else none

abbrev pub pop : List (List ℕ) → Option (List ℕ × List (List ℕ))
pop [] = none
pop (p ∷ q) = some (p, q)

pub pop-some : (q r : List (List ℕ)) (p : List ℕ) → pop q ≡ some (p, r) → q ≡ p ∷ r
pop-some [] r p e = cc
pop-some (x ∷ q) r p e = cc

pub pop-none : (q : List (List ℕ)) → pop q ≡ none → q ≡ []
pop-none [] e = refl
pop-none (x ∷ q) e = cc

pub push-some : (p : List ℕ) (q r : List (List ℕ)) → push p q ≡ some r → r ≡ q ++ p ∷ []
push-some p q r e = ground arith

pub push_room :
    (p : List ℕ) (q : List (List ℕ)) → length q < send_buffer_size → push p q ≡ some (q ++ p ∷ [])
push_room p q h = ground arith

abbrev pub list_queue : Queue
list_queue = record {
  Q = List (List ℕ);
  held = λ q. q;
  x_queue_send = push;
  x_queue_receive = pop;
  send_some = push-some;
  send_room = λ p q h. (q ++ p ∷ [], push_room p q h);
  receive_some = pop-some;
  receive_none = pop-none;
}

-- Two packets of the callback and one of the advertising task, nothing queued.
abbrev pub link : Link list_queue
link = record {
  queue = [];
  host = (0 ∷ 2 ∷ 7 ∷ 8 ∷ []) ∷ (0 ∷ 1 ∷ 9 ∷ []) ∷ [];
  advert = (0 ∷ 1 ∷ 5 ∷ []) ∷ [];
  accepted = [];
  delivered = [];
}
