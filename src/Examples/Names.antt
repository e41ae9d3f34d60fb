-- ===== src/Examples/Names.antt =====
-- The theorems on names, headers, numbers and configurations at concrete inputs.
use multi_protocol_proxy.Prelude.{
  true, [], ◌∷◌, ◌++◌, some, codes, str_eq, to_lower, lookup, ◌≡◌, refl, arith,
}
use multi_protocol_proxy.Sni.{extract_sni}
use multi_protocol_proxy.Sni.Total.{Returns, extract_sni-Returns}
use multi_protocol_proxy.Sni.RoundTrip.{Hello, encode, IsHello, extract_sni-encode}
use multi_protocol_proxy.Proxy.Relay.{
  World, handle_connection, active_up, active_down, dialed, wrote_upstream, count_relay,
}
use multi_protocol_proxy.Proxy.Routes.{Ends, handle_connection-Ends, handle_connection-encode}

extract_sni-Returns_example :
    Returns (0x16 ∷ 3 ∷ 1 ∷ 0 ∷ 9 ∷ 1 ∷ []) (extract_sni (0x16 ∷ 3 ∷ 1 ∷ 0 ∷ 9 ∷ 1 ∷ []))
extract_sni-Returns_example = extract_sni-Returns (0x16 ∷ 3 ∷ 1 ∷ 0 ∷ 9 ∷ 1 ∷ [])

abbrev hello : Hello
hello = record {
  record_rest = 3 ∷ 1 ∷ 0 ∷ 0 ∷ [];
  hello_length = 0 ∷ 0 ∷ 0 ∷ [];
  version_random = codes "0123456789012345678901234567890123";
  session = [];
  ciphers = 0 ∷ 47 ∷ [];
  compression = 0 ∷ [];
  before = [];
  name = codes "A.com";
  after = [];
}

hello-IsHello : IsHello hello
hello-IsHello = record {
  record_header = refl;
  hello_header = refl;
  fixed = refl;
  session_fits = omega arith;
  ciphers_fit = omega arith;
  compression_fits = omega arith;
  extensions_fit = omega arith;
  others = tt;
}

extract_sni-encode_example : extract_sni (encode hello) ≡ some (codes "A.com")
extract_sni-encode_example = extract_sni-encode hello hello-IsHello

abbrev proxied : World
proxied = record {
  read = some (encode hello);
  hosts = (codes "a.com", codes "10.0.0.1:443") ∷ [];
  dial = λ target. true;
  write = λ data'. true;
  up = 3;
  down = 4;
}

handle_connection-Ends_example : Ends proxied (handle_connection proxied)
handle_connection-Ends_example = handle_connection-Ends proxied

handle_connection-encode_example :
    handle_connection proxied
    ≡ active_up
      ∷ dialed (codes "10.0.0.1:443")
      ∷ wrote_upstream (encode hello)
      ∷ (count_relay proxied (codes "A.com") ++ (active_down ∷ []))
unfolding str_eq lookup to_lower
handle_connection-encode_example =
    handle_connection-encode proxied hello (codes "10.0.0.1:443") refl hello-IsHello refl refl refl
      refl
