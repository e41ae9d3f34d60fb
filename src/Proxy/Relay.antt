-- ===== src/Proxy/Relay.antt =====
-- `HandleConnection` of internal/proxy/server.go, from the first read to the end of the relay.
-- Each `defer` is a step behind the call that it guards. Deadlines and log lines are left out.
use multi_protocol_proxy.Prelude.{
  ℕ, Bool, false, not, List, [], ◌∷◌, ◌++◌, Option, none, some, Bytes, codes, str_eq, to_lower,
  add64, ◌==◌, if◌then◌else◌, Map, lookup,
}
use multi_protocol_proxy.Sni.{peek_sni}

-- What the handler does, in order.
pub data Event : Type 0 where
  active_up active_down : Event
  error_count : Bytes → Event
  stats_error stats_relay : Event
  stats_bytes : ℕ → Event
  served_api : Bytes → Event
  dialed : Bytes → Event
  wrote_upstream : Bytes → Event
  relay_count : Bytes → Event
  bytes_counted : Bytes → ℕ → ℕ → Event

-- What the handler finds in the world: what the first read returns, the table of hosts, whether a
-- dial and the first write to the target succeed, and the bytes that the two copies have counted
-- when the first of them ends or the context is done.
pub record World : Type 0 where
  pub read : Option Bytes
  pub hosts : Map Bytes
  pub dial : Bytes → Bool
  pub write : Bytes → Bool
  pub up : ℕ
  pub down : ℕ

-- `len(initialData) > 0 && initialData[0] != 0x16`.
abbrev pub is_plain : Bytes → Bool
is_plain [] = false
is_plain (b ∷ data') = not (b == 0x16)

-- From the copied bytes on.
abbrev pub count_relay : World → Bytes → List Event
count_relay w sni =
    relay_count sni
    ∷ stats_relay
    ∷ bytes_counted sni w.up w.down
    ∷ stats_bytes (add64 w.up w.down)
    ∷ []

-- From the dialed target on.
unfoldable pub relay : World → Bytes → Bytes → List Event
relay w sni initial_data =
    if str_eq initial_data []
    then count_relay w sni
    else if w.write initial_data
    then wrote_upstream initial_data ∷ count_relay w sni
    else wrote_upstream initial_data ∷ error_count (codes "write_failed") ∷ []

unfoldable pub connect : World → Bytes → Bytes → Bytes → List Event
connect w sni initial_data target =
    if w.dial target
    then dialed target ∷ relay w sni initial_data
    else dialed target ∷ error_count (codes "dial_failed") ∷ stats_error ∷ []

unfoldable pub unauthorized : Bytes → List Event
unauthorized initial_data =
    if is_plain initial_data
    then served_api initial_data ∷ []
    else error_count (codes "unauthorized_sni") ∷ stats_error ∷ []

-- From the read name on.
unfoldable pub route : World → Bytes → Bytes → List Event
route w sni initial_data = elim (lookup (to_lower sni) w.hosts) [
  | none ↦ unauthorized initial_data
  | some target ↦
      if str_eq sni [] then unauthorized initial_data else connect w sni initial_data target
]

-- From the first read on.
unfoldable pub peeked : World → List Event
peeked w = elim (peek_sni w.read) [
  | none ↦ error_count (codes "peek_failed") ∷ stats_error ∷ []
  | some (sni, initial_data) ↦ route w sni initial_data
]

unfoldable pub handle_connection : World → List Event
handle_connection w = active_up ∷ (peeked w ++ (active_down ∷ []))
