-- ===== src/Proxy/Routes.antt =====
-- Where internal/proxy/server.go sends a connection, and what it counts.
use multi_protocol_proxy.Prelude.{
  ℕ, ◌+◌, true, false, List, [], ◌∷◌, ◌++◌, Option, some, Bytes, ◌≡◌, ◌⊎◌, refl, sym, ap, ◌∙◌,
  arith, subst, append-nil, str_eq, to_lower, lookup, Bool-cases, Option-cases, inl, inr,
}
use multi_protocol_proxy.Sni.{peek_sni}
use multi_protocol_proxy.Sni.RoundTrip.{Hello, encode, IsHello, extract_sni-encode}
use multi_protocol_proxy.Proxy.Relay.{
  Event, active_up, active_down, error_count, stats_relay, served_api, dialed, wrote_upstream,
  World, count_relay, relay, connect, unauthorized, route, peeked, handle_connection,
}

-- The targets that the handler has dialed.
abbrev pub dials : List Event → List Bytes
dials [] = []
dials (dialed t ∷ es) = t ∷ dials es
dials (_ ∷ es) = dials es

dials-append : (xs ys : List Event) → dials (xs ++ ys) ≡ dials xs ++ dials ys
dials-append [] ys = refl
dials-append (dialed t ∷ es) ys = ap (◌∷◌ t) (dials-append es ys)
dials-append (_ ∷ es) ys = dials-append es ys

-- How a connection can end: with an error that is counted, with a relay, or served by the internal
-- API.
abbrev pub outcomes : List Event → ℕ
outcomes [] = 0
outcomes (error_count label ∷ es) = 1 + outcomes es
outcomes (stats_relay ∷ es) = 1 + outcomes es
outcomes (served_api data' ∷ es) = 1 + outcomes es
outcomes (_ ∷ es) = outcomes es

outcomes-append : (xs ys : List Event) → outcomes (xs ++ ys) ≡ outcomes xs + outcomes ys
outcomes-append [] ys = omega arith
outcomes-append (error_count label ∷ es) ys = omega (arith, outcomes-append es ys)
outcomes-append (stats_relay ∷ es) ys = omega (arith, outcomes-append es ys)
outcomes-append (served_api data' ∷ es) ys = omega (arith, outcomes-append es ys)
outcomes-append (_ ∷ es) ys = outcomes-append es ys

-- The first read held a name, and the table sends its lower-case form to the target.
pub record Routed (w : World) (target : Bytes) : Type 0 where
  pub initial_data : Bytes
  pub sni : Bytes
  pub read : peek_sni w.read ≡ some (sni, initial_data)
  pub named : str_eq sni [] ≡ false
  pub listed : lookup (to_lower sni) w.hosts ≡ some target

-- What a part of the handler adds: no dial, or the one dial of a routed target; and one outcome.
pub record Ends (w : World) (es : List Event) : Type 0 where
  pub dialed_to :
      (dials es ≡ []) ⊎ ((target : Bytes) × (Routed w target × (dials es ≡ target ∷ [])))
  pub outcome : outcomes es ≡ 1

module _ (w : World) where
  relay-silent : (sni d : Bytes) → (dials (relay w sni d) ≡ []) × (outcomes (relay w sni d) ≡ 1)
  unfolding relay
  relay-silent sni d = (ground arith, ground arith)

  connect-Ends : (sni d target : Bytes) → Routed w target → Ends w (connect w sni d target)
  unfolding connect
  connect-Ends sni d target routed = elim (Bool-cases (w.dial target)) [
    | inl reached ↦
        rw (reached, connect)
          (record {
            dialed_to = inr (target, (routed, ap (◌∷◌ target) (relay-silent sni d).0));
            outcome = (relay-silent sni d).1;
          })
    | inr failing ↦
        rw (failing, connect) (record { dialed_to = inr (target, (routed, refl)); outcome = refl })
  ]

  unauthorized-Ends : (d : Bytes) → Ends w (unauthorized d)
  unfolding unauthorized
  unauthorized-Ends d = record { dialed_to = inl (ground arith); outcome = ground arith }

  route-Ends : (sni d : Bytes) → peek_sni w.read ≡ some (sni, d) → Ends w (route w sni d)
  unfolding route
  route-Ends sni d read = elim (Option-cases (lookup (to_lower sni) w.hosts)) [
    | inl unknown ↦ rw (unknown, route) (unauthorized-Ends d)
    | inr (target, listed) ↦ elim (Bool-cases (str_eq sni [])) [
      | inl nameless ↦ rw (listed, route, nameless) (unauthorized-Ends d)
      | inr named ↦
          rw (listed, route, named)
            (connect-Ends sni d target
              (record { initial_data = d; sni = sni; read = read; named = named; listed = listed }))
    ]
  ]

  peeked-Ends : Ends w (peeked w)
  unfolding peeked
  peeked-Ends = elim (Option-cases (peek_sni w.read)) [
    | inl unread ↦ rw (unread, peeked) (record { dialed_to = inl refl; outcome = refl })
    | inr ((sni, d), read) ↦ rw (read, peeked) (route-Ends sni d read)
  ]

-- Every connection ends in one way, counted once, and dials at most one target: one that the table
-- of hosts gives for the lower-case form of the name in the client's first bytes.
pub handle_connection-Ends : (w : World) → Ends w (handle_connection w)
unfolding handle_connection
handle_connection-Ends w =
    let ends = peeked-Ends w in
    let same : dials (handle_connection w) ≡ dials (peeked w) =
      dials-append (peeked w) (active_down ∷ []) ∙ append-nil (dials (peeked w)) in
    record {
      dialed_to =
          subst (λ ds. (ds ≡ []) ⊎ ((target : Bytes) × (Routed w target × (ds ≡ target ∷ []))))
            (sym same) ends.dialed_to;
      outcome = outcomes-append (peeked w) (active_down ∷ []) ∙ omega (arith, ends.outcome);
    }

routed-relay :
    (w : World) (sni d target : Bytes)
    → peek_sni w.read ≡ some (sni, d)
    → str_eq sni [] ≡ false
    → str_eq d [] ≡ false
    → lookup (to_lower sni) w.hosts ≡ some target
    → w.dial target ≡ true
    → w.write d ≡ true
    → peeked w ≡ dialed target ∷ wrote_upstream d ∷ count_relay w sni
unfolding peeked route connect relay
routed-relay w sni d target read named sent listed reached written =
    rw (read, peeked)
      (rw (listed, route, named) (rw (reached, connect) (rw (sent, relay, written) refl)))

peek-hello :
    (o : Option Bytes) (c : Hello)
    → o ≡ some (encode c)
    → IsHello c
    → peek_sni o ≡ some (c.name, encode c)
unfolding peek_sni
peek-hello o c read hello = rw (read, peek_sni) (rw (extract_sni-encode c hello) refl)

-- A client whose first bytes are a ClientHello for a name that is not empty and is listed in
-- lower case is relayed to the listed target, which is sent exactly those bytes, where the dial
-- and the write succeed.
pub handle_connection-encode :
    (w : World) (c : Hello) (target : Bytes)
    → w.read ≡ some (encode c)
    → IsHello c
    → str_eq c.name [] ≡ false
    → lookup (to_lower c.name) w.hosts ≡ some target
    → w.dial target ≡ true
    → w.write (encode c) ≡ true
    → handle_connection w
      ≡ active_up
        ∷ dialed target
        ∷ wrote_upstream (encode c)
        ∷ (count_relay w c.name ++ (active_down ∷ []))
unfolding handle_connection str_eq
handle_connection-encode w c target read hello named listed reached written =
    ap (λ (es : List Event). active_up ∷ (es ++ (active_down ∷ [])))
      (routed-relay w c.name (encode c) target (peek-hello w.read c read hello) named refl listed
        reached written)
