-- ===== src/Sni/RoundTrip.antt =====
-- A ClientHello that a client writes, and the name that `extractSNI` (internal/proxy/server.go)
-- reads from it.
use multi_protocol_proxy.Prelude.{
  ℕ, ◌+◌, ◌^◌, ◌<◌, false, List, [], ◌∷◌, ◌++◌, some, Bytes, ◌≡◌, refl, sym, arith, length,
  length-append, ltb, All,
}
use multi_protocol_proxy.Sni.{
  extensions, compression_methods, cipher_suites, session_id, handshake, extract_sni,
}
use multi_protocol_proxy.Sni.Extensions.{
  get_elem?-At, encode16, Extension, encode_extensions, IsOther, At, At-skip, word16-At,
  name_extension, walk-At,
}

pub record Hello : Type 0 where
  pub record_rest : Bytes
  pub hello_length : Bytes
  pub version_random : Bytes
  pub session : Bytes
  pub ciphers : Bytes
  pub compression : Bytes
  pub before : List Extension
  pub name : Bytes
  pub after : Bytes

abbrev pub hello_extensions : Hello → Bytes
hello_extensions c = encode_extensions c.before ++ name_extension c.name c.after

-- From the compression methods on, and so on back to the record header of five bytes; the
-- handshake header has four, the version and the random 34.
abbrev pub encode_compression : Hello → Bytes
encode_compression c =
    length c.compression
    ∷ (c.compression ++ (encode16 (length (hello_extensions c)) ++ hello_extensions c))

abbrev pub encode_ciphers : Hello → Bytes
encode_ciphers c = encode16 (length c.ciphers) ++ (c.ciphers ++ encode_compression c)

abbrev pub encode_session : Hello → Bytes
encode_session c = length c.session ∷ (c.session ++ encode_ciphers c)

abbrev pub encode : Hello → Bytes
encode c =
    0x16 ∷ (c.record_rest ++ (0x01 ∷ (c.hello_length ++ (c.version_random ++ encode_session c))))

pub record IsHello (c : Hello) : Type 0 where
  pub record_header : length c.record_rest ≡ 4
  pub hello_header : length c.hello_length ≡ 3
  pub fixed : length c.version_random ≡ 34
  pub session_fits : length c.session < 256
  pub ciphers_fit : length c.ciphers < 2 ^ 16
  pub compression_fits : length c.compression < 256
  pub extensions_fit : length (hello_extensions c) < 2 ^ 16
  pub others : All IsOther c.before

extensions-At :
    (c : Hello) (data' : Bytes) (pos : ℕ)
    → IsHello c
    → At data' pos (encode16 (length (hello_extensions c)) ++ hello_extensions c)
    → extensions data' pos ≡ some c.name
unfolding extensions
extensions-At c data' pos v at =
    let at2 =
      At-skip data' pos 2 (pos + 2) (encode16 (length (hello_extensions c))) (hello_extensions c) at
        refl refl in
    let total = length-append (encode_extensions c.before) (name_extension c.name c.after) in
    let named = length-append c.name c.after in
    let long : ltb (length data') (pos + 2) ≡ false = ground (arith, at2.measured) in
    let whole : ltb (length data') (pos + 2 + length (hello_extensions c)) ≡ false =
      ground (arith, at2.measured) in
    rw (long, word16-At data' pos (length (hello_extensions c)) _ at v.extensions_fit, whole)
      (walk-At c.before (length data' + 1) data' (pos + 2) _ c.name c.after at2 v.others
        (omega (arith, total, named, v.extensions_fit)) (omega (arith, total, named))
        (omega (arith, total, at2.measured)))

compression-At :
    (c : Hello) (data' : Bytes) (pos : ℕ)
    → IsHello c
    → At data' pos (encode_compression c)
    → compression_methods data' pos ≡ some c.name
unfolding compression_methods
compression-At c data' pos v at =
    let n = length c.compression in
    let at1 = At-skip data' pos 1 (pos + 1) (n ∷ []) _ at refl refl in
    let next = At-skip data' (pos + 1) n (pos + (1 + n)) c.compression _ at1 refl (omega arith) in
    let long : ltb (length data') (pos + 1) ≡ false = ground (arith, at1.measured) in
    rw (long, get_elem?-At data' pos n _ at) (extensions-At c data' (pos + (1 + n)) v next)

ciphers-At :
    (c : Hello) (data' : Bytes) (pos : ℕ)
    → IsHello c
    → At data' pos (encode_ciphers c)
    → cipher_suites data' pos ≡ some c.name
unfolding cipher_suites
ciphers-At c data' pos v at =
    let n = length c.ciphers in
    let at2 = At-skip data' pos 2 (pos + 2) (encode16 n) _ at refl refl in
    let next = At-skip data' (pos + 2) n (pos + (2 + n)) c.ciphers _ at2 refl (omega arith) in
    let long : ltb (length data') (pos + 2) ≡ false = ground (arith, at2.measured) in
    rw (long, word16-At data' pos n _ at v.ciphers_fit)
      (compression-At c data' (pos + (2 + n)) v next)

session-At :
    (c : Hello) (data' : Bytes) (pos : ℕ)
    → IsHello c
    → At data' pos (encode_session c)
    → session_id data' pos ≡ some c.name
unfolding session_id
session-At c data' pos v at =
    let n = length c.session in
    let at1 = At-skip data' pos 1 (pos + 1) (n ∷ []) _ at refl refl in
    let next = At-skip data' (pos + 1) n (pos + (1 + n)) c.session _ at1 refl (omega arith) in
    let long : ltb (length data') (pos + 1) ≡ false = ground (arith, at1.measured) in
    rw (long, get_elem?-At data' pos n _ at) (ciphers-At c data' (pos + (1 + n)) v next)

handshake-At :
    (c : Hello) (data' : Bytes)
    → IsHello c
    → At data' 5 (0x01 ∷ (c.hello_length ++ (c.version_random ++ encode_session c)))
    → handshake data' 5 ≡ some c.name
unfolding handshake
handshake-At c data' v at =
    let at6 = At-skip data' 5 1 6 (0x01 ∷ []) _ at refl (omega arith) in
    let at9 = At-skip data' 6 3 9 c.hello_length _ at6 (sym v.hello_header) (omega arith) in
    let at43 = At-skip data' 9 34 43 c.version_random _ at9 (sym v.fixed) (omega arith) in
    let long : ltb (length data') (5 + 4) ≡ false = ground (arith, at9.measured) in
    let whole : ltb (length data') (5 + 4 + 34) ≡ false = ground (arith, at43.measured) in
    rw (long, get_elem?-At data' 5 0x01 _ at, whole) (session-At c data' 43 v at43)

-- The parser reads back the name of every well-formed ClientHello, whatever its session, its cipher
-- suites, the extensions before the name and the bytes after it.
pub extract_sni-encode : (c : Hello) → IsHello c → extract_sni (encode c) ≡ some c.name
unfolding extract_sni
extract_sni-encode c v =
    let start : At (encode c) 0 (encode c) = record { dropped = refl; measured = omega arith } in
    let at1 = At-skip (encode c) 0 1 1 (0x16 ∷ []) _ start refl (omega arith) in
    let at5 = At-skip (encode c) 1 4 5 c.record_rest _ at1 (sym v.record_header) (omega arith) in
    let long : ltb (length (encode c)) 5 ≡ false = ground (arith, at5.measured) in
    rw long (handshake-At c (encode c) v at5)
