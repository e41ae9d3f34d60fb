-- ===== src/Socks5/Charges.antt =====
-- What internal/socks5/server.go charges for a relay.
use multi_protocol_proxy.Prelude.{ℕ, false, Option, Bytes, ◌≡◌, refl}
use multi_protocol_proxy.Auth.{User}
use multi_protocol_proxy.Socks5.Wire.{Session}
use multi_protocol_proxy.Socks5.Handler.{World, relay}

-- The bytes of a copy from the target that has not ended when the first copy ends are charged to
-- nobody: whatever their number, the metrics and the tracker are the same.
pub relay-unfinished :
    (w : World) (username : Bytes) (user : Option User) (s : Session) (n : ℕ)
    → w.relay.down_ended ≡ false
    → relay (record w { relay = record w.relay { down = n } }) username user s
      ≡ relay w username user s
unfolding relay
relay-unfinished w username user s n unfinished = rw unfinished refl
