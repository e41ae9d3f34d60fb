-- ===== src/HttpProxy/Headers.antt =====
-- `parseProxyAuth` and `removeHopByHopHeaders` of internal/httpproxy/server.go. A header's names
-- are in canonical form, which net/http sees to.
use multi_protocol_proxy.Prelude.{
  ℕ, suc, List, [], ◌∷◌, Option, none, some, Bytes, codes, str_eq, has_prefix, length, drop, take,
  ◌==◌, if◌then◌else◌, Map, lookup, delete_if,
}
use multi_protocol_proxy.Host.{Host}

-- `http.Header`.
abbrev pub Header : Type 0
Header = Map (List Bytes)

-- `h.Get(key)`: the first value, the empty string where there is none.
abbrev first_or_empty : Option (List Bytes) → Bytes
first_or_empty none = []
first_or_empty (some []) = []
first_or_empty (some (v ∷ vs)) = v

unfoldable pub header_get : Header → Bytes → Bytes
header_get h key = first_or_empty (lookup key h)

-- `h.Del(key)`.
unfoldable pub header_del : Header → Bytes → Header
header_del h key = delete_if (λ k. str_eq k key) h

-- `strings.IndexByte`, `none` for -1.
unfoldable pub index_byte : Bytes → ℕ → Option ℕ
index_byte [] b = none
index_byte (a ∷ s) b =
    let rest = index_byte s b in
    if a == b then some 0 else elim rest [ none ↦ none | some i ↦ some (suc i) ]

abbrev pub basic_prefix : Bytes
basic_prefix = codes "Basic "

-- The part of `parseProxyAuth` behind the decoding.
unfoldable pub split_credentials : Bytes → Option (Bytes × Bytes)
split_credentials credentials = elim (index_byte credentials b':') [
  | none ↦ none
  | some idx ↦ some (take idx credentials, drop (suc idx) credentials)
]

unfoldable pub parse_proxy_auth : Host → Header → Option (Bytes × Bytes)
parse_proxy_auth h header =
    let auth = header_get header (codes "Proxy-Authorization") in
    if str_eq auth []
    then none
    else if has_prefix auth basic_prefix
    then elim (h.decode_base64 (drop (length basic_prefix) auth)) [
      | none ↦ none
      | some decoded ↦ split_credentials decoded
    ]
    else none

abbrev pub hop_by_hop : List Bytes
hop_by_hop =
    codes "Connection"
    ∷ codes "Keep-Alive"
    ∷ codes "Proxy-Authenticate"
    ∷ codes "Proxy-Authorization"
    ∷ codes "Proxy-Connection"
    ∷ codes "Te"
    ∷ codes "Trailer"
    ∷ codes "Transfer-Encoding"
    ∷ codes "Upgrade"
    ∷ []

-- `for _, header := range names { h.Del(header) }`.
unfoldable pub header_del_all : Header → List Bytes → Header
header_del_all h [] = h
header_del_all h (name ∷ names) = header_del_all (header_del h name) names

unfoldable pub remove_hop_by_hop_headers : Header → Header
remove_hop_by_hop_headers h = header_del_all h hop_by_hop
