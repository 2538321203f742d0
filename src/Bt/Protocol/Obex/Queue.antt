-- ===== src/Bt/Protocol/Obex/Queue.antt =====
-- The frames of answers in the send queue of blue/bt_main.c, as the controller gets them.
use mathlib.Core.List.{append-nil, append_assoc, map-append}
use hydroponic_closet.Prelude.{ℕ, ◌≡◌, refl, sym, ap, ◌∙◌, List, [], ◌∷◌, ◌++◌, map}
use hydroponic_closet.Bt.Stream.{Buffer, contents}
use hydroponic_closet.Bt.State.{Session, queue_packet}
use hydroponic_closet.Bt.Transport.{payload}
use hydroponic_closet.Bt.Protocol.Obex.Sent.{Begins}
use hydroponic_closet.Bt.Protocol.Obex.{
  Answer, acknowledged, accepted, go_on, success, packet_of, frame_of,
}

payload_first :
    (flags cid : ℕ) (a : Answer) (more : List ℕ)
    → payload (packet_of flags cid a ++ more) ≡ frame_of flags cid a
unfolding payload
payload_first flags cid (acknowledged n) more = refl
payload_first flags cid (accepted id) more = refl
payload_first flags cid (go_on r t) more = refl
payload_first flags cid (success r t) more = refl

module _ (flags cid : ℕ) where
  payload-Begins :
      (a : Answer) (b : Buffer)
      → Begins flags cid a b.written
      → payload (contents b) ≡ frame_of flags cid a
  unfolding contents
  payload-Begins a b c = rw c.layout (
      ap payload (append_assoc (packet_of flags cid a) c.more b.cells)
      ∙ payload_first flags cid a (c.more ++ b.cells))

  -- The queue grew by the frames of these answers.
  abbrev pub Answered : Session → List Answer → Session → Type 0
  Answered s xs t = map payload t.queued ≡ map payload s.queued ++ map (frame_of flags cid) xs

  pub queued-Answered :
      (s : Session) (a : Answer) (b : Buffer)
      → Begins flags cid a b.written
      → Answered s (a ∷ []) (queue_packet (contents b) s)
  unfolding queue_packet
  queued-Answered s a b c =
      map-append payload s.queued (contents b ∷ [])
      ∙ ap (λ x. map payload s.queued ++ x ∷ []) (payload-Begins a b c)

  pub Answered-refl : (s : Session) → Answered s [] s
  Answered-refl s = sym (append-nil (map payload s.queued))

  pub Answered-trans :
      (s t u : Session) (xs ys : List Answer)
      → Answered s xs t
      → Answered t ys u
      → Answered s (xs ++ ys) u
  Answered-trans s t u xs ys e f =
      f
      ∙ ap (λ l. l ++ map (frame_of flags cid) ys) e
      ∙ append_assoc (map payload s.queued) (map (frame_of flags cid) xs) _
      ∙ ap (λ l. map payload s.queued ++ l) (sym (map-append (frame_of flags cid) xs ys))
