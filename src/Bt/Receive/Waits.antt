-- ===== src/Bt/Receive/Waits.antt =====
-- When the controller's callback is through with all packets of a connection, its waits for the send
-- queue included (blue/bt_main.c).
use hydroponic_closet.Bt.State.{Session}
use hydroponic_closet.Bt.Transport.{Queue, Link, run}
use hydroponic_closet.Bt.Transport.Delivery.{alternate}

module _ (api : Queue) where
  open api use {held}

  -- What is left once the callback has tried each of its packets once, after a round of `send`.
  abbrev after_attempts : Session → Link api → Link api
  after_attempts t l = run api (alternate t.queued) (record l { host = t.queued })
