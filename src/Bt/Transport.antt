-- ===== src/Bt/Transport.antt =====
-- The send queue of bt_main.c: `queue_packet` at one end, the task `send` at the other. The queue
-- itself is FreeRTOS's, a parameter.
pub mod Fifo
pub mod Delivery
use hydroponic_closet.Prelude.{
  ℕ, ◌+◌, ◌*◌, ◌<◌, ◌≡◌, Bool, true, false, List, [], ◌∷◌, ◌++◌, Option, none, some, length, take,
  drop, get_or, if◌then◌else◌,
}

-- SEND_BUFFER_SIZE
abbrev pub send_buffer_size : ℕ
send_buffer_size = 10

-- What FreeRTOS documents of a static queue that is used without waiting: xQueueSend copies an
-- item behind the others or reports that the queue is full, xQueueReceive takes the oldest.
pub record Queue : Type 1 where
  pub Q : Type 0
  pub held : Q → List (List ℕ)  -- the items, the oldest first
  pub x_queue_send : List ℕ → Q → Option Q
  pub x_queue_receive : Q → Option (List ℕ × Q)
  pub send_some : (p : List ℕ) (q r : Q) → x_queue_send p q ≡ some r → held r ≡ held q ++ p ∷ []
  pub send_room :
      (p : List ℕ) (q : Q)
      → length (held q) < send_buffer_size
      → (r : Q) × (x_queue_send p q ≡ some r)
  pub receive_some : (q r : Q) (p : List ℕ) → x_queue_receive q ≡ some (p, r) → held q ≡ p ∷ held r
  pub receive_none : (q : Q) → x_queue_receive q ≡ none → held q ≡ []

-- esp_vhci_host_send_packet(&packet[2], packet[0] * 256 + packet[1])
unfoldable pub payload : List ℕ → List ℕ
payload packet = take (get_or packet 0 0 * 256 + get_or packet 1 0) (drop 2 packet)

-- Two tasks call `queue_packet`: the controller's callback and the advertising task.
pub data Action : Type 0 where
  host_attempt advert_attempt : Action  -- one round of `while (xQueueSend(…) != pdTRUE);`
  send_round : Bool → Action  -- one round of `send`; may the controller take a packet?

module _ (api : Queue) where
  open api use {Q, x_queue_send, x_queue_receive}

  pub record Link : Type 0 where
    pub queue : Q
    pub host : List (List ℕ)  -- the packets that the callback has still to queue
    pub advert : List (List ℕ)  -- the packets that the advertising task has still to queue
    pub accepted : List (List ℕ)  -- the packets that the queue took, the oldest first
    pub delivered : List (List ℕ)  -- what the controller was handed, the oldest first

  -- One attempt to queue the first packet; a full queue changes nothing.
  unfoldable pub attempt_host : List (List ℕ) → Link → Link
  attempt_host [] l = l
  attempt_host (p ∷ ps) l = elim (x_queue_send p l.queue) [
    | none ↦ l
    | some q ↦ record l { queue = q; host = ps; accepted = l.accepted ++ p ∷ [] }
  ]

  unfoldable pub attempt_advert : List (List ℕ) → Link → Link
  attempt_advert [] l = l
  attempt_advert (p ∷ ps) l = elim (x_queue_send p l.queue) [
    | none ↦ l
    | some q ↦ record l { queue = q; advert = ps; accepted = l.accepted ++ p ∷ [] }
  ]

  -- The body of the loop of `send`.
  unfoldable pub send : Bool → Link → Link
  send available l =
      if available
      then (elim (x_queue_receive l.queue) [
        | none ↦ l
        | some (p, q) ↦ record l { queue = q; delivered = l.delivered ++ payload p ∷ [] }
      ])
      else l

  unfoldable pub act : Action → Link → Link
  act host_attempt l = attempt_host l.host l
  act advert_attempt l = attempt_advert l.advert l
  act (send_round available) l = send available l

  unfoldable pub run : List Action → Link → Link
  run [] l = l
  run (a ∷ as') l = run as' (act a l)
