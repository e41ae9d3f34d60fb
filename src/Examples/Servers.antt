-- ===== src/Examples/Servers.antt =====
-- The theorems on the servers at concrete inputs.
use multi_protocol_proxy.Prelude.{
  Bool, true, false, List, [], ◌∷◌, ◌++◌, none, some, Bytes, codes, str_eq, to_lower, has_prefix,
  lookup, insert, ◌≡◌, ◌≢◌, refl, arith, if◌then◌else◌,
}
use multi_protocol_proxy.Auth.{
  validate_credentials, check_ip_allowed, check_rate_limit, check_expiry, get_user, not_expired,
}
use multi_protocol_proxy.RateLimit.{allow}
use multi_protocol_proxy.Tracker.{check_allowance, check_conn_limit}
use multi_protocol_proxy.Tracker.View.{view}
use multi_protocol_proxy.Tracker.Conns.{conns_at}
use multi_protocol_proxy.Tracker.Same.{HasRoom}
use multi_protocol_proxy.Decimal.{itoa}
use multi_protocol_proxy.Socks5.Wire.{
  Session, done, read_full, read_host, check_password, authenticate_user, offers_user_pass,
  handle_method_negotiation, handle_request,
}
use multi_protocol_proxy.Socks5.Quiet.{dials}
use multi_protocol_proxy.Socks5.Dialogue.{
  greeting, user_pass, Answer, connect_domain, negotiation-user_pass, handle_request-connect_domain,
}
use multi_protocol_proxy.Socks5.Handler.{
  World, handle_connection, negotiated, authorized, admission, is_super_admin, checks,
  account_checks, within_allowance, within_conns, counted, serve_request, connect, relay,
}
use multi_protocol_proxy.Socks5.Sessions.{handle_connection-conns}
use multi_protocol_proxy.Socks5.Gate.{MayDial, handle_connection-MayDial}
use multi_protocol_proxy.HttpProxy.Headers.{
  parse_proxy_auth, header_get, split_credentials, index_byte,
}
use multi_protocol_proxy.HttpProxy.Handler
use multi_protocol_proxy.HttpProxy.Gate.{MayReach, reaches, handle_request-MayReach}
use multi_protocol_proxy.HttpProxy.Sessions.{handle_request-conns}
use multi_protocol_proxy.Pac.{new_handler, serve_http, limit, check_token, answer, requested_user}
use multi_protocol_proxy.Pac.Entitled.{IsEntitled, is_ok, serve_http-IsEntitled}
use multi_protocol_proxy.Examples.Data.{toy_host, one_user_store, one_usage, may}

abbrev dialogue : Session
dialogue = record {
  input =
      greeting (2 ∷ [])
      ++ (user_pass (codes "alice") (codes "pw") ++ (connect_domain (codes "a.com") 443 ++ []));
  store = one_user_store;
  tracker = some one_usage;
  trace = [];
}

negotiation-user_pass_example :
    let v = validate_credentials toy_host one_user_store 5 (codes "alice") (codes "pw") in
    handle_method_negotiation toy_host 5 dialogue
    ≡ Answer dialogue (codes "alice") (connect_domain (codes "a.com") 443 ++ []) v.0 v.1
unfolding offers_user_pass
negotiation-user_pass_example =
    negotiation-user_pass toy_host 5 (2 ∷ []) (codes "alice") (codes "pw")
      (connect_domain (codes "a.com") 443 ++ []) dialogue refl refl

abbrev requesting : Session
requesting = record dialogue { input = connect_domain (codes "a.com") 443 ++ codes "GET" }

handle_request-connect_domain_example :
    handle_request toy_host requesting
    ≡ done (codes "a.com" ++ (codes ":" ++ itoa 443)) (record requesting { input = codes "GET" })
handle_request-connect_domain_example =
    handle_request-connect_domain toy_host (codes "a.com") (codes "GET") 443 requesting
      (omega arith) refl

abbrev world : World
world = record {
  host = toy_host;
  client_ip = codes "10.0.0.1";
  now = 5;
  moment = may;
  later = may;
  dial = λ target. some (record { ip4 = none; port = 80 });
  relay = record { up = 3; down = 4; up_ended = true; down_ended = false };
}

room : HasRoom (some one_usage)
unfolding view lookup
room k = ground arith

handle_connection-conns_example :
    conns_at (handle_connection world dialogue).tracker (codes "alice")
    ≡ conns_at (some one_usage) (codes "alice")
handle_connection-conns_example = handle_connection-conns world dialogue (codes "alice") room

abbrev is_nil : {A : Type 0} → List A → Bool
is_nil [] = true
is_nil (x ∷ xs) = false

differs : {A : Type 0} (xs : List A) → is_nil xs ≡ false → xs ≢ []
differs [] e same = cc (e)
differs (x ∷ xs) e same = cc (same)

dialogue-dials : is_nil (dials (handle_connection world dialogue).trace) ≡ false
unfolding handle_connection negotiated authorized admission is_super_admin checks account_checks
    within_allowance within_conns counted serve_request connect relay handle_method_negotiation
    authenticate_user check_password offers_user_pass read_full handle_request read_host
    validate_credentials check_ip_allowed check_rate_limit check_expiry get_user allow not_expired
    check_allowance check_conn_limit insert lookup str_eq to_lower
dialogue-dials = refl

handle_connection-MayDial_example : MayDial world dialogue
handle_connection-MayDial_example =
    handle_connection-MayDial world dialogue (differs _ dialogue-dials)

abbrev http_world : Handler.World
http_world = record {
  host = toy_host;
  now = 5;
  moment = may;
  later = may;
  pac_handler = none;
  dial = λ target. true;
  hijack = Handler.hijacked;
  round_trip = λ header. none;
  up = 3;
  down = 4;
}

abbrev connect_request : Handler.Request
connect_request = record {
  path = [];
  request_uri = [];
  remote_addr = codes "10.0.0.1";
  method = codes "CONNECT";
  host = codes "a.com";
  absolute = false;
  header = (codes "Proxy-Authorization", (codes "Basic " ++ codes "alice:pw") ∷ []) ∷ [];
}

abbrev http_state : Handler.State
http_state = record { store = one_user_store; tracker = some one_usage; trace = [] }

handle_request-conns_example :
    conns_at (Handler.handle_request http_world connect_request http_state).tracker (codes "Alice")
    ≡ conns_at (some one_usage) (codes "Alice")
handle_request-conns_example =
    handle_request-conns http_world connect_request http_state (codes "Alice") room

request_reaches :
    is_nil (reaches (Handler.handle_request http_world connect_request http_state).trace) ≡ false
unfolding Handler.handle_request Handler.proxy_request Handler.authenticate Handler.admission
    Handler.is_super_admin Handler.checks Handler.account_checks Handler.within_allowance
    Handler.within_conns Handler.serve Handler.counted Handler.dispatch Handler.handle_connect
    Handler.tunnel validate_credentials check_ip_allowed check_rate_limit check_expiry get_user
    parse_proxy_auth header_get has_prefix split_credentials index_byte allow not_expired
    check_allowance check_conn_limit insert lookup str_eq to_lower
request_reaches = refl

handle_request-MayReach_example : MayReach http_world connect_request http_state
handle_request-MayReach_example =
    handle_request-MayReach http_world connect_request http_state (differs _ request_reaches)

abbrev pac_config : multi_protocol_proxy.Pac.Config
pac_config = record {
  enabled = true;
  proxy_host = codes "proxy";
  http_port = codes "8080";
  socks5_port = codes "1080";
  token = codes "t";
  default_user = [];
  rate_limit_rpm = 2;
}

abbrev pac_query : Bytes → Bytes
pac_query key =
    if str_eq key (codes "token")
    then codes "t"
    else if str_eq key (codes "user")
    then codes "alice"
    else codes "pw"

abbrev pac_request : multi_protocol_proxy.Pac.Request
pac_request = record { remote_addr = codes "10.0.0.1:5"; header = []; query = pac_query }

pac_served :
    is_ok (serve_http toy_host (new_handler pac_config) one_user_store pac_request 5).1.1 ≡ true
unfolding serve_http limit multi_protocol_proxy.Pac.check_rate_limit
    multi_protocol_proxy.Pac.send_pac lookup str_eq check_token answer requested_user
    validate_credentials to_lower
pac_served = refl

serve_http-IsEntitled_example :
    IsEntitled toy_host (new_handler pac_config) one_user_store pac_request 5
serve_http-IsEntitled_example =
    serve_http-IsEntitled toy_host (new_handler pac_config) one_user_store pac_request 5 pac_served
