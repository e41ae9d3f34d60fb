-- ===== src/Sni/Total.antt =====
-- The reads of `extractSNI` in internal/proxy/server.go, and its end, on any input.
use multi_protocol_proxy.Prelude.{
  ℕ, zero, suc, ◌+◌, ◌-◌, ◌*◌, ◌≤◌, ◌<◌, [], Option, some, Bytes, ◌≡◌, refl, ◌⊎◌, inl, inr, arith,
  length, get_elem?_total, take, drop, ltb, leb, ◌==◌, Bool-cases, leb→le,
}
use multi_protocol_proxy.Sni.{
  word16, slice, server_name, walk, extensions, compression_methods, cipher_suites, session_id,
  handshake, extract_sni,
}

-- The bytes are empty or stand in the data in one piece.
abbrev pub Segment : Bytes → Bytes → Type 0
Segment data' s =
    (s ≡ []) ⊎ ((from : ℕ) × (n : ℕ) × (from + n ≤ length data') × (s ≡ take n (drop from data')))

-- The parser returns, and what it returns stands in the data.
abbrev pub Returns : Bytes → Option Bytes → Type 0
Returns data' r = (s : Bytes) × (r ≡ some s) × Segment data' s

Returns-nothing : (data' : Bytes) → Returns data' (some [])
Returns-nothing data' = ([], refl, inl refl)

word16_total :
    (data' : Bytes) (pos : ℕ) → pos + 1 < length data' → (w : ℕ) × (word16 data' pos ≡ some w)
unfolding word16
word16_total data' pos h =
    let (hi, e) = get_elem?_total data' pos (omega arith) in
    let (lo, f) = get_elem?_total data' (pos + 1) h in (hi * 256 + lo, rw (e, f))

slice-Returns :
    (data' : Bytes) (from n : ℕ) → from + n ≤ length data' → Returns data' (slice data' from n)
unfolding slice
slice-Returns data' from n h = (take n (drop from data'), ground arith, inr (from, n, h, refl))

server_name-Returns :
    (data' : Bytes) (pos end_pos : ℕ)
    → end_pos ≤ length data'
    → Returns data' (server_name data' pos end_pos)
unfolding server_name
server_name-Returns data' pos end_pos h = elim (Bool-cases (ltb end_pos (pos + 5))) [
  | inl short ↦ rw short (Returns-nothing data')
  | inr long ↦
      let (kind, e) = get_elem?_total data' (pos + 2) (ground arith) in
      let (n, f) = word16_total data' (pos + 3) (ground arith) in
      elim (Bool-cases (kind == 0)) [
        | inr other ↦ rw (long, e, other) (Returns-nothing data')
        | inl host ↦ elim (Bool-cases (ltb end_pos (pos + 5 + n))) [
          | inl over ↦ rw (long, e, host, f, over) (Returns-nothing data')
          | inr inside ↦
              rw (long, e, host, f, inside) (slice-Returns data' (pos + 5) n (ground arith))
        ]
      ]
]

walk-Returns :
    (fuel : ℕ) (data' : Bytes) (pos end_pos : ℕ)
    → end_pos ≤ length data'
    → end_pos - pos < fuel
    → Returns data' (walk fuel data' pos end_pos)
unfolding walk
walk-Returns zero data' pos end_pos h m = absurd (omega arith)
walk-Returns (suc fuel) data' pos end_pos h m = elim (Bool-cases (leb (pos + 4) end_pos)) [
  | inr stop ↦ rw (stop, walk) (Returns-nothing data')
  | inl more ↦
      let room : pos + 4 ≤ end_pos = leb→le (pos + 4) end_pos more in
      let (t, e) = word16_total data' pos (omega arith) in
      let (l, f) = word16_total data' (pos + 2) (omega arith) in
      let rest = walk-Returns fuel data' (pos + 4 + l) end_pos h (omega arith) in
      elim (Bool-cases (t == 0)) [
        | inl host ↦ rw (more, walk, e, f, host) (server_name-Returns data' (pos + 4) end_pos h)
        | inr other ↦ rw (more, walk, e, f, other) rest
      ]
]

extensions-Returns : (data' : Bytes) (pos : ℕ) → Returns data' (extensions data' pos)
unfolding extensions
extensions-Returns data' pos = elim (Bool-cases (ltb (length data') (pos + 2))) [
  | inl short ↦ rw short (Returns-nothing data')
  | inr long ↦
      let (n, e) = word16_total data' pos (ground arith) in
      rw (long, e) (walk-Returns (length data' + 1) data' (pos + 2) _ (ground arith) (ground arith))
]

compression_methods-Returns :
    (data' : Bytes) (pos : ℕ) → Returns data' (compression_methods data' pos)
unfolding compression_methods
compression_methods-Returns data' pos = elim (Bool-cases (ltb (length data') (pos + 1))) [
  | inl short ↦ rw short (Returns-nothing data')
  | inr long ↦
      let (n, e) = get_elem?_total data' pos (ground arith) in
      rw (long, e) (extensions-Returns data' (pos + (1 + n)))
]

cipher_suites-Returns : (data' : Bytes) (pos : ℕ) → Returns data' (cipher_suites data' pos)
unfolding cipher_suites
cipher_suites-Returns data' pos = elim (Bool-cases (ltb (length data') (pos + 2))) [
  | inl short ↦ rw short (Returns-nothing data')
  | inr long ↦
      let (n, e) = word16_total data' pos (ground arith) in
      rw (long, e) (compression_methods-Returns data' (pos + (2 + n)))
]

session_id-Returns : (data' : Bytes) (pos : ℕ) → Returns data' (session_id data' pos)
unfolding session_id
session_id-Returns data' pos = elim (Bool-cases (ltb (length data') (pos + 1))) [
  | inl short ↦ rw short (Returns-nothing data')
  | inr long ↦
      let (n, e) = get_elem?_total data' pos (ground arith) in
      rw (long, e) (cipher_suites-Returns data' (pos + (1 + n)))
]

handshake-Returns : (data' : Bytes) (pos : ℕ) → Returns data' (handshake data' pos)
unfolding handshake
handshake-Returns data' pos = elim (Bool-cases (ltb (length data') (pos + 4))) [
  | inl short ↦ rw short (Returns-nothing data')
  | inr long ↦
      let (kind, e) = get_elem?_total data' pos (ground arith) in
      elim (Bool-cases (kind == 0x01)) [
        | inr other ↦ rw (long, e, other) (Returns-nothing data')
        | inl hello ↦ elim (Bool-cases (ltb (length data') (pos + 4 + 34))) [
          | inl cut ↦ rw (long, e, hello, cut) (Returns-nothing data')
          | inr whole ↦ rw (long, e, hello, whole) (session_id-Returns data' (pos + 4 + 34))
        ]
      ]
]

-- For every input, whatever a client sends, the parser returns without an index or a slice out of
-- range and without running out of fuel; the name it returns is empty or a piece of the input.
pub extract_sni-Returns : (data' : Bytes) → Returns data' (extract_sni data')
unfolding extract_sni
extract_sni-Returns data' = elim (Bool-cases (ltb (length data') 5)) [
  | inl short ↦ rw short (Returns-nothing data')
  | inr long ↦
      let (kind, e) = get_elem?_total data' 0 (ground arith) in
      elim (Bool-cases (kind == 0x16)) [
        | inr other ↦ rw (long, e, other) (Returns-nothing data')
        | inl tls ↦ rw (long, e, tls) (handshake-Returns data' 5)
      ]
]
