-- ===== src/Sni.antt =====
-- `extractSNI` of internal/proxy/server.go: the name in a TLS ClientHello. An index or a slice out
-- of range would be a panic, which is `none` here, and so is a loop that runs out of fuel.
pub mod Total
pub mod Extensions
pub mod RoundTrip
use multi_protocol_proxy.Prelude.{
  ℕ, zero, suc, ◌+◌, ◌-◌, ◌*◌, Bool, true, false, not, List, [], ◌∷◌, Option, none, some, Bytes,
  length, get_elem?, take, drop, ltb, leb, ◌==◌, if◌then◌else◌,
}

infixl 5 ◌>>=◌
abbrev pub ◌>>=◌ {ℓ κ} : {A : Type ℓ} {B : Type κ} → Option A → (A → Option B) → Option B
none >>= f = none
some a >>= f = f a

-- `int(data[pos])<<8 | int(data[pos+1])`: the second is a byte, so the bits do not meet.
unfoldable pub word16 : Bytes → ℕ → Option ℕ
word16 data' pos = do hi ← get_elem? data' pos; lo ← get_elem? data' (pos + 1); some (hi * 256 + lo)

-- `data[from : from+n]`.
unfoldable pub slice : Bytes → ℕ → ℕ → Option Bytes
slice data' from n = if leb (from + n) (length data') then some (take n (drop from data')) else none

-- The body of the server_name extension, which starts at `pos`.
unfoldable pub server_name : Bytes → ℕ → ℕ → Option Bytes
server_name data' pos end_pos = if ltb end_pos (pos + 5) then some [] else do
  kind ← get_elem? data' (pos + 2)
  name_len ← (if kind == 0 then word16 data' (pos + 3) else some 0)
  if not (kind == 0)
      then some []
      else if ltb end_pos (pos + 5 + name_len)
      then some []
      else slice data' (pos + 5) name_len

-- The loop over the extensions.
unfoldable pub walk : ℕ → Bytes → ℕ → ℕ → Option Bytes
walk zero data' pos end_pos = none
walk (suc fuel) data' pos end_pos = elim (leb (pos + 4) end_pos) [
  | false ↦ some []
  | true ↦ do
    ext_type ← word16 data' pos
    ext_len ← word16 data' (pos + 2)
    let rest = walk fuel data' (pos + 4 + ext_len) end_pos
    if ext_type == 0 then server_name data' (pos + 4) end_pos else rest
]

-- From the length of the extensions on. Each round moves on by four at least, and stays inside the
-- data, so its length is fuel enough.
unfoldable pub extensions : Bytes → ℕ → Option Bytes
extensions data' pos = if ltb (length data') (pos + 2) then some [] else do
  extensions_len ← word16 data' pos
  let end_pos = pos + 2 + extensions_len
  walk (length data' + 1) data' (pos + 2)
      (if ltb (length data') end_pos then length data' else end_pos)

unfoldable pub compression_methods : Bytes → ℕ → Option Bytes
compression_methods data' pos =
    if ltb (length data') (pos + 1)
    then some []
    else do compression_len ← get_elem? data' pos; extensions data' (pos + (1 + compression_len))

unfoldable pub cipher_suites : Bytes → ℕ → Option Bytes
cipher_suites data' pos = if ltb (length data') (pos + 2) then some [] else do
  cipher_suites_len ← word16 data' pos
  compression_methods data' (pos + (2 + cipher_suites_len))

unfoldable pub session_id : Bytes → ℕ → Option Bytes
session_id data' pos =
    if ltb (length data') (pos + 1)
    then some []
    else do session_id_len ← get_elem? data' pos; cipher_suites data' (pos + (1 + session_id_len))

-- From the handshake header, behind the record header of five bytes.
unfoldable pub handshake : Bytes → ℕ → Option Bytes
handshake data' pos = if ltb (length data') (pos + 4) then some [] else do
  kind ← get_elem? data' pos
  if not (kind == 0x01)
      then some []
      else if ltb (length data') (pos + 4 + 34)
      then some []
      else session_id data' (pos + 4 + 34)

unfoldable pub extract_sni : Bytes → Option Bytes
extract_sni data' = if ltb (length data') 5 then some [] else do
  record_type ← get_elem? data' 0
  if not (record_type == 0x16) then some [] else handshake data' 5

-- `PeekSNI` on what one `Read` of at most 16384 bytes returns, `none` on an error: the name, and
-- the bytes read, which are passed on.
unfoldable pub peek_sni : Option Bytes → Option (Bytes × Bytes)
peek_sni none = none
peek_sni (some data') = do sni ← extract_sni data'; some (sni, data')
