-- ===== src/Closet/Credentials/Received.antt =====
-- From a file that a peer puts to the fields of the station's configuration.
use hydroponic_closet.Prelude.{
  ℕ, ◌+◌, ◌<◌, ◌≡◌, refl, sym, ap, ◌∙◌, true, List, [], ◌∷◌, ◌++◌, Option, none, some, length, drop,
  set, ltb, if_both, arith, All,
}
use hydroponic_closet.Bt.State.{Packet}
use hydroponic_closet.Bt.Put.{Put, put_name, put_body}
use hydroponic_closet.Bt.Receive.Copy.{gather}
use hydroponic_closet.Bt.Receive.Stored.{name_chars, body_bytes, put_name_lem, put_body_lem}
use hydroponic_closet.Closet.Credentials.{
  c_string, same_string, Credentials, wifi_config, poll, strcpy, StaConfig, set_credentials,
}

-- A string ends at the zero behind it, if not before.
pub c_string-closed : (xs ys : List ℕ) → c_string (xs ++ 0 ∷ ys) ≡ c_string xs
unfolding c_string
c_string-closed [] ys = refl
c_string-closed (x ∷ xs) ys = rw (c_string-closed xs ys)

pub same_string_refl : (xs : List ℕ) → same_string xs xs ≡ true
unfolding same_string
same_string_refl [] = refl
same_string_refl (x ∷ xs) = ground (arith, same_string_refl xs)

some_value : {r q : Put} → some r ≡ some q → q ≡ r
some_value {r} e = sym (ap (λ o. elim o [ none ↦ r | some x ↦ x ]) e)

module _ (packet : Packet) (p q : Put) where
  c_string-name :
      put_name packet p ≡ some q
      → c_string q.session.buffer_1 ≡ c_string (gather (name_chars packet p) 2 packet (p.i + 4))
  c_string-name = rw (put_name_lem packet p) (
      if_both
        (λ o.
          o ≡ some q
          → c_string q.session.buffer_1
            ≡ c_string (gather (name_chars packet p) 2 packet (p.i + 4)))
        (ltb (name_chars packet p) (length p.session.buffer_1))
        (λ _ e. ap (λ (r : Put). c_string r.session.buffer_1) (some_value e) ∙ c_string-closed _ _)
        (λ _ e. cc))

  c_string-body :
      put_body packet p ≡ some q
      → c_string q.session.buffer_2 ≡ c_string (gather (body_bytes packet p) 1 packet (p.i + 3))
  c_string-body = rw (put_body_lem packet p) (
      if_both
        (λ o.
          o ≡ some q
          → c_string q.session.buffer_2
            ≡ c_string (gather (body_bytes packet p) 1 packet (p.i + 3)))
        (ltb (body_bytes packet p) (length p.session.buffer_2))
        (λ _ e. ap (λ (r : Put). c_string r.session.buffer_2) (some_value e) ∙ c_string-closed _ _)
        (λ _ e. cc))

-- If a PUT with a name header and then one with a body header have been stored, the name being
-- "wifi.config" up to its first zero, the next round of the loop in `app_main` finds just the
-- credentials that sscanf reads in the body up to its first zero.
pub poll-received :
    (scan : List ℕ → Option Credentials) (packet : Packet) (p q : Put) (packet' : Packet)
    (r t : Put)
    → put_name packet p ≡ some q
    → put_body packet' r ≡ some t
    → c_string (gather (name_chars packet p) 2 packet (p.i + 4)) ≡ wifi_config
    → (poll scan q.session.buffer_1 t.session.buffer_2).found
      ≡ scan (c_string (gather (body_bytes packet' r) 1 packet' (r.i + 3)))
unfolding poll
poll-received scan packet p q packet' r t e f n =
    rw (c_string-name packet p q e, n, same_string_refl wifi_config, c_string-body packet' r t f)

pub cleared : (fi : List ℕ) → 0 < length fi → c_string (set fi 0 0) ≡ []
unfolding c_string
cleared [] h = elim h [ ]
cleared (x ∷ xs) h = refl

-- After a round of the loop the next finds nothing, if no file came in between.
pub poll-once :
    (scan : List ℕ → Option Credentials) (fi content : List ℕ)
    → 0 < length fi
    → let l = poll scan fi content in (poll scan l.fi l.content).found ≡ none
unfolding poll same_string
poll-once scan fi content h = rw (cleared fi h)

strcpy-fits :
    (field s : List ℕ)
    → length s < length field
    → strcpy field s ≡ some (s ++ 0 ∷ drop (length s + 1) field)
unfolding strcpy
strcpy-fits field s h = ground arith

c_string-All : (s : List ℕ) → All (λ b. 0 < b) s → c_string s ≡ s
unfolding c_string
c_string-All [] h = refl
c_string-All (b ∷ s) h = ground (arith, c_string-All s h.1)

-- Credentials of which each is shorter than its field are copied, and read back from the fields.
pub set_credentials-c_string :
    (config : StaConfig) (c : Credentials)
    → length c.ssid < length config.ssid
    → length c.pass < length config.password
    → All (λ b. 0 < b) c.ssid
    → All (λ b. 0 < b) c.pass
    → (d : StaConfig) × (set_credentials config c ≡ some d)
      × (c_string d.ssid ≡ c.ssid)
      × (c_string d.password ≡ c.pass)
unfolding set_credentials
set_credentials-c_string config c h k a b =
    rw (set_credentials, strcpy-fits config.ssid c.ssid h, strcpy-fits config.password c.pass k)
      (
        _,
        refl,
        c_string-closed c.ssid _ ∙ c_string-All c.ssid a,
        c_string-closed c.pass _ ∙ c_string-All c.pass b,
      )
