-- ===== src/Examples/Access.antt =====
-- The theorems on users, addresses and rates at concrete inputs.
use multi_protocol_proxy.Prelude.{
  ◌+◌, ◌*◌, ◌-◌, ◌≤◌, true, [], ◌∷◌, none, some, is_some, codes, str_eq, str_eq_iff, to_lower,
  lookup, Bytes, contains_byte, ◌≡◌, ◌↔◌, ◌⊎◌, refl, arith, if◌then◌else◌,
}
use multi_protocol_proxy.Auth.{
  validate_credentials, check_ip_allowed, check_rate_limit, load_from_file, parsed, unreadable,
  empty_store, UsersConfig, parse_cidrs,
}
use multi_protocol_proxy.Auth.Cache.{CacheIsSound, Accepts, validate_sound, validate_complete}
use multi_protocol_proxy.Auth.Networks.{IsAddress, IsListed, load-check_ip_allowed_iff}
use multi_protocol_proxy.Auth.Refinement.{
  Request, loads, validates, answers, expected, answers-expected, empty-Refines,
}
use multi_protocol_proxy.Auth.Steps.{overtaken, overtaken-accepts}
use multi_protocol_proxy.Prelude.{List}
use multi_protocol_proxy.Auth.Loading.{load-cache, load-unlimited}
use multi_protocol_proxy.RateLimit.{TokenBucket, token, full_bucket, allow_all, burst}
use multi_protocol_proxy.RateLimit.Bounds.{last_time, allow_all-le-burst}
use multi_protocol_proxy.Examples.Data.{
  toy_host, toy_host-CollisionFree, toy_host-DigestsAreHex, alice, one_user, one_user_store,
}

empty_cache : CacheIsSound toy_host one_user_store
unfolding lookup
empty_cache key e found = absurd (cc (found))

alice_accepted : Accepts toy_host one_user_store (codes "ALICE") (codes "pw") alice
unfolding lookup str_eq to_lower
alice_accepted = (refl, refl)

validate_sound_example : Accepts toy_host one_user_store (codes "ALICE") (codes "pw") alice
validate_sound_example =
    validate_sound toy_host one_user_store 5 (codes "ALICE") (codes "pw") alice
      toy_host-CollisionFree toy_host-DigestsAreHex empty_cache
      (validate_complete toy_host one_user_store 5 (codes "ALICE") (codes "pw") alice
        toy_host-CollisionFree toy_host-DigestsAreHex empty_cache alice_accepted)

-- A file with a whitelist.
abbrev walled : UsersConfig
walled = record one_user { ip_whitelist = codes "10.0.0.1" ∷ (codes "10.1.0.0/16" ∷ []) }

load-check_ip_allowed_iff_example :
    let r = load_from_file toy_host (λ m. m) empty_store (parsed walled) 3 in
    (check_ip_allowed toy_host r.0 (codes "10.0.0.1") ≡ true) ↔ (
      (walled.ip_whitelist ≡ [])
      ⊎ ((ip : Bytes) × (IsAddress toy_host (codes "10.0.0.1") ip
            × IsListed toy_host walled.ip_whitelist ip)))
unfolding load_from_file contains_byte parse_cidrs
load-check_ip_allowed_iff_example =
    load-check_ip_allowed_iff toy_host (λ m. m) empty_store walled 3 (codes "10.0.0.1") refl

load-cache_example :
    let r = load_from_file toy_host (λ m. m) one_user_store unreadable 3 in
    r.0.cred_cache ≡ (if is_some r.1 then one_user_store.cred_cache else [])
load-cache_example = load-cache toy_host (λ m. m) one_user_store unreadable 3

load-unlimited_example :
    let s = (load_from_file toy_host (λ m. m) empty_store (parsed one_user) 3).0 in
    check_rate_limit s (codes "aLICE") 9 ≡ (s, true)
unfolding str_eq to_lower
load-unlimited_example =
    load-unlimited toy_host (λ m. m) one_user 3 9 (codes "aLICE")
      ((λ e. cc ((str_eq_iff (codes "Alice") (codes "aLICE")).1 e)), tt) (λ e. cc (e))

allow_all-le-burst_example :
    (allow_all (full_bucket 6 0) (0 ∷ 5 ∷ [])).1 * token
    ≤ burst 6 + (last_time 0 (0 ∷ 5 ∷ []) - 0) * 6
allow_all-le-burst_example = allow_all-le-burst 6 0 (0 ∷ 5 ∷ []) (omega arith, (omega arith, tt))

abbrev empty_bucket : TokenBucket
empty_bucket = record { tokens = 0; max_tokens = 10 * token; refill_rate = 6; last_refill = 0 }

abbrev session : List Request
session =
    loads (parsed one_user) 0
    ∷ validates 1 (codes "ALICE") (codes "pw")
    ∷ loads (parsed (record one_user { users = [] })) 2
    ∷ validates 3 (codes "alice") (codes "pw")
    ∷ []

answers-expected_example :
    answers toy_host (λ m. m) empty_store session ≡ expected toy_host (λ name. none) session
answers-expected_example =
    answers-expected toy_host (λ m. m) session empty_store (λ name. none) toy_host-CollisionFree
      toy_host-DigestsAreHex (empty-Refines toy_host) ((tt, tt), (tt, ((tt, tt), (tt, tt))))

overtaken-accepts_example :
    (validate_credentials toy_host
      (overtaken toy_host 0 (codes "alice") (codes "pw") one_user_store (λ s. empty_store)).0
      7
      (codes "alice")
      (codes "pw")).1
    ≡ some alice
unfolding lookup to_lower str_eq
overtaken-accepts_example =
    overtaken-accepts toy_host one_user_store 0 7 (codes "alice") (codes "pw") alice
      (λ s. empty_store) refl refl refl (omega arith)
