-- ===== src/Tracker/Same.antt =====
-- Trackers of internal/bandwidth/tracker.go that count the same connections.
use multi_protocol_proxy.Prelude.{◌-◌, ◌<◌, Option, Bytes, ◌≡◌, ap, ◌∙◌, half_mod, is_some}
use multi_protocol_proxy.Tracker.{Tracker}
use multi_protocol_proxy.Tracker.Conns.{conns_at}

-- Two states that count the same connections under every name, or none.
abbrev pub SameConns : Option Tracker → Option Tracker → Type 0
SameConns t t' = ((k : Bytes) → conns_at t' k ≡ conns_at t k) × (is_some t' ≡ is_some t)

pub SameConns-trans : (a b c : Option Tracker) → SameConns a b → SameConns b c → SameConns a c
SameConns-trans a b c p q = ((λ k. q.0 k ∙ p.0 k), q.1 ∙ p.1)

pub SameConns-eq : (a b : Option Tracker) → b ≡ a → SameConns a b
SameConns-eq a b e = ((λ k. ap (λ t. conns_at t k) e), ap is_some e)

-- Every name counts fewer connections than a 64-bit word can.
abbrev pub HasRoom : Option Tracker → Type 0
HasRoom t = (k : Bytes) → conns_at t k < half_mod - 1
