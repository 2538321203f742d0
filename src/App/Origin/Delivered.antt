-- ===== src/App/Origin/Delivered.antt =====
-- How the loop of `app_main` that waits for a file ends with credentials (src/main/main.cpp).
use hydroponic_closet.Prelude.{
  ℕ, ◌≡◌, refl, ap, ◌∙◌, true, List, [], ◌∷◌, ◌++◌, Option, none, some, arith,
}
use hydroponic_closet.Bt.State.{Packet, Session, Outcome, done, overrun, hang}
use hydroponic_closet.Bt.Handler.{serve}
use hydroponic_closet.Closet.Credentials.{c_string, same_string, Credentials, wifi_config, poll}
use hydroponic_closet.App.{
  found, still_waiting, after_poll, after_callback, poll_arrays, keep_arrays, wait_for_file,
}

module _ (scan : List ℕ → Option Credentials) where
  -- In some rounds of the loop that waits for a file nothing was found. Then the callback returned
  -- from the packets of the next one, and left the name "wifi.config" in the one array, and in the
  -- other a text in which sscanf finds the credentials.
  pub record HasFile (deliveries : List (List (Packet × ℕ))) (s : Session) (c : Credentials)
      : Type 0 where
    pub looks : List (List (Packet × ℕ))
    pub packets : List (Packet × ℕ)
    pub rest : List (List (Packet × ℕ))
    pub delivered : deliveries ≡ looks ++ packets ∷ rest
    pub before : Session
    pub waited : wait_for_file scan looks s ≡ still_waiting before
    pub after : Session
    pub served : serve before packets ≡ done after
    pub name : same_string (c_string after.buffer_1) wifi_config ≡ true
    pub text : scan (c_string after.buffer_2) ≡ some c

  poll-found :
      (s : Session) (c : Credentials)
      → (poll_arrays scan s).found ≡ some c
      → (same_string (c_string s.buffer_1) wifi_config ≡ true)
        × (scan (c_string s.buffer_2) ≡ some c)
  unfolding poll
  poll-found s c e = ground arith

  -- From one round of the loop.
  module _ (s t : Session) (packets : List (Packet × ℕ)) (rest : List (List (Packet × ℕ)))
      (c : Credentials) where
    -- Nothing was found in it.
    later_look :
        (u : Session)
        → serve s packets ≡ done u
        → (poll_arrays scan u).found ≡ none
        → HasFile rest (keep_arrays (poll_arrays scan u) u) c
        → HasFile (packets ∷ rest) s c
    unfolding wait_for_file
    later_look u f g h = record {
      looks = packets ∷ h.looks;
      packets = h.packets;
      rest = h.rest;
      delivered = ap (λ x. packets ∷ x) h.delivered;
      before = h.before;
      waited = rw (f, g) h.waited;
      after = h.after;
      served = h.served;
      name = h.name;
      text = h.text;
    }

    after_poll-HasFile :
        (u : Session) (o : Option Credentials)
        → serve s packets ≡ done u
        → (poll_arrays scan u).found ≡ o
        → ((v : Session) → wait_for_file scan rest v ≡ found c t → HasFile rest v c)
        → after_poll (wait_for_file scan rest) o (keep_arrays (poll_arrays scan u) u) ≡ found c t
        → HasFile (packets ∷ rest) s c
    unfolding wait_for_file
    after_poll-HasFile u none f g h e = later_look u f g (h _ e)
    after_poll-HasFile u (some d) f g h e =
        let (n, x) = poll-found u d g in
        record {
          looks = [];
          packets = packets;
          rest = rest;
          delivered = refl;
          before = s;
          waited = refl;
          after = u;
          served = f;
          name = n;
          text = x ∙ ap some cc;
        }

    after_callback-HasFile :
        (o : Outcome)
        → serve s packets ≡ o
        → ((v : Session) → wait_for_file scan rest v ≡ found c t → HasFile rest v c)
        → after_callback scan (wait_for_file scan rest) o ≡ found c t
        → HasFile (packets ∷ rest) s c
    after_callback-HasFile (done u) f h e = after_poll-HasFile u _ f refl h e
    after_callback-HasFile overrun f h e = cc
    after_callback-HasFile hang f h e = cc

  pub wait_for_file-HasFile :
      (deliveries : List (List (Packet × ℕ))) (s t : Session) (c : Credentials)
      → wait_for_file scan deliveries s ≡ found c t
      → HasFile deliveries s c
  unfolding wait_for_file
  wait_for_file-HasFile [] s t c e = cc
  wait_for_file-HasFile (packets ∷ rest) s t c e =
      after_callback-HasFile s t packets rest c (serve s packets) refl
        (λ v. wait_for_file-HasFile rest v t c) e
