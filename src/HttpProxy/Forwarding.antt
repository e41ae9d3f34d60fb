-- ===== src/HttpProxy/Forwarding.antt =====
-- The headers of internal/httpproxy/server.go: the credentials that a request carries, and what is
-- passed on.
use multi_protocol_proxy.Prelude.{
  ℕ, suc, Bool, true, false, ◌||◌, List, [], ◌∷◌, ◌++◌, Option, none, some, Bytes, ◌≡◌, refl, sym,
  arith, subst, codes, str_eq, str_eq_iff, contains_byte, has_prefix-append, length, drop,
  take-append, drop-append, if◌then◌else◌, lookup, lookup-delete_if, Bool-cases, inl, inr,
}
use multi_protocol_proxy.Host.{Host}
use multi_protocol_proxy.HttpProxy.Headers.{
  Header, header_get, header_del, index_byte, split_credentials, parse_proxy_auth, header_del_all,
  hop_by_hop, remove_hop_by_hop_headers, basic_prefix,
}
use multi_protocol_proxy.HttpProxy.Handler.{outgoing}

-- `name` is one of `names`.
abbrev pub listed : List Bytes → Bytes → Bool
listed [] name = false
listed (n ∷ ns) name = str_eq n name || listed ns name

header_del-lookup :
    (h : Header) (name k : Bytes)
    → lookup k (header_del h name) ≡ (if str_eq k name then none else lookup k h)
unfolding header_del
header_del-lookup h name k = lookup-delete_if (λ j. str_eq j name) k h

header_del_all-lookup :
    (h : Header) (names : List Bytes) (k : Bytes)
    → lookup k (header_del_all h names) ≡ (if listed names k then none else lookup k h)
unfolding header_del_all
header_del_all-lookup h [] k = refl
header_del_all-lookup h (n ∷ ns) k = ground (
  arith,
  header_del_all-lookup (header_del h n) ns k,
  header_del-lookup h n k,
  str_eq_iff k n,
  str_eq_iff n k,
)

-- Deleting a name once more changes nothing.
del_listed-lookup :
    (h : Header) (names : List Bytes) (n k : Bytes)
    → listed names n ≡ true
    → lookup k (header_del (header_del_all h names) n)
      ≡ (if listed names k then none else lookup k h)
del_listed-lookup h names n k known = elim (Bool-cases (str_eq k n)) [
  | inl same ↦
      let known_k : listed names k ≡ true =
        subst (λ j. listed names j ≡ true) (sym ((str_eq_iff k n).0 same)) known in
      rw (header_del-lookup, same, known_k) refl
  | inr other ↦ rw (header_del-lookup, other) (header_del_all-lookup h names k)
]

-- The header that is passed on holds no hop-by-hop name and no proxy credentials, and every other
-- name with its values unchanged.
pub outgoing-lookup :
    (h : Header) (k : Bytes)
    → lookup k (outgoing h) ≡ (if listed hop_by_hop k then none else lookup k h)
unfolding outgoing remove_hop_by_hop_headers str_eq
outgoing-lookup h k = del_listed-lookup h hop_by_hop (codes "Proxy-Authorization") k refl

index_byte-append :
    (u p : Bytes) (b : ℕ)
    → contains_byte u b ≡ false
    → index_byte (u ++ (b ∷ p)) b ≡ some (length u)
unfolding index_byte contains_byte
index_byte-append [] p b none_in = ground arith
index_byte-append (a ∷ u) p b none_in = ground (arith, index_byte-append u p b)

drop-suc-append : (u p : Bytes) (b : ℕ) → drop (suc (length u)) (u ++ (b ∷ p)) ≡ p
drop-suc-append [] p b = refl
drop-suc-append (a ∷ u) p b = drop-suc-append u p b

some-pair :
    (a a' b b' : Bytes)
    → a ≡ a'
    → b ≡ b'
    → ◌≡◌ {A = Option (Bytes × Bytes)} (some (a, b)) (some (a', b'))
some-pair a a' b b' e f = rw (e, f) refl

-- The password may hold colons.
split_credentials-append :
    (u p : Bytes) → contains_byte u b':' ≡ false → split_credentials (u ++ (b':' ∷ p)) ≡ some (u, p)
unfolding split_credentials
split_credentials-append u p plain =
    rw (split_credentials, index_byte-append u p b':' plain)
      (some-pair _ _ _ _ (take-append u (b':' ∷ p)) (drop-suc-append u p b':'))

-- A client that sends `Basic ` and the base64 form of `name:password`, with no colon in the name,
-- is read as that name with that password, where decoding undoes encoding.
pub parse_proxy_auth-basic :
    (h : Host) (encode : Bytes → Bytes) (header : Header) (u p : Bytes)
    → ((x : Bytes) → h.decode_base64 (encode x) ≡ some x)
    → contains_byte u b':' ≡ false
    → header_get header (codes "Proxy-Authorization") ≡ basic_prefix ++ encode (u ++ (b':' ∷ p))
    → parse_proxy_auth h header ≡ some (u, p)
unfolding parse_proxy_auth str_eq
parse_proxy_auth-basic h encode header u p decodes plain sent =
    let text = encode (u ++ (b':' ∷ p)) in
    rw (sent, parse_proxy_auth)
      (rw
        (
          has_prefix-append basic_prefix text,
          drop-append basic_prefix text,
          decodes (u ++ (b':' ∷ p)),
        )
        (split_credentials-append u p plain))
