-- ===== src/Sni/Extensions.antt =====
-- The extensions of a ClientHello, and what extractSNI of internal/proxy/server.go reads of them.
use multi_protocol_proxy.Prelude.{
  ℕ, zero, suc, ◌+◌, ◌/◌, ◌%◌, ◌^◌, ◌≤◌, ◌<◌, true, false, List, [], ◌∷◌, ◌++◌, some, Bytes, ◌≡◌,
  refl, ap, ◌∙◌, arith, length, length-append, get_elem?, drop, take-append, drop-append,
  append_assoc, subst, ltb, leb, ◌==◌, All,
}
use multi_protocol_proxy.Sni.{word16, slice, server_name, walk}

abbrev pub encode16 : ℕ → Bytes
encode16 n = (n / 256) ∷ (n % 256) ∷ []

-- An extension other than server_name.
pub record Extension : Type 0 where
  pub kind : ℕ
  pub body : Bytes

abbrev pub encode_extensions : List Extension → Bytes
encode_extensions [] = []
encode_extensions (e ∷ es) =
    encode16 e.kind ++ (encode16 (length e.body) ++ (e.body ++ encode_extensions es))

-- Its number is not that of server_name, and both numbers fit in 16 bits.
abbrev pub IsOther : Extension → Type 0
IsOther e = (0 < e.kind) × (e.kind < 2 ^ 16) × (length e.body < 2 ^ 16)

-- `rest` is what the data holds from position `pos` on.
pub record At (data' : Bytes) (pos : ℕ) (rest : Bytes) : Type 0 where
  pub dropped : drop pos data' ≡ rest
  pub measured : length data' ≡ pos + length rest

drop-drop : (a b c : ℕ) (xs : Bytes) → c ≡ a + b → drop c xs ≡ drop b (drop a xs)
drop-drop zero b c xs e = let same : c ≡ b = omega arith in ap (λ (n : ℕ). drop n xs) same
drop-drop (suc a) b zero xs e = absurd (omega arith)
drop-drop (suc a) zero (suc c) [] e = refl
drop-drop (suc a) (suc b) (suc c) [] e = refl
drop-drop (suc a) b (suc c) (x ∷ xs) e = drop-drop a b c xs (omega arith)

pub At-skip :
    (data' : Bytes) (pos n next : ℕ) (xs rest : Bytes)
    → At data' pos (xs ++ rest)
    → n ≡ length xs
    → next ≡ pos + n
    → At data' next rest
At-skip data' pos n next xs rest at e f = record {
  dropped =
      drop-drop pos n next data' f
      ∙ ap (drop n) at.dropped
      ∙ ap (λ (k : ℕ). drop k (xs ++ rest)) e
      ∙ drop-append xs rest;
  measured = omega (arith, at.measured, length-append xs rest);
}

get_elem?-drop :
    (data' : Bytes) (pos x : ℕ) (rest : Bytes)
    → drop pos data' ≡ x ∷ rest
    → get_elem? data' pos ≡ some x
get_elem?-drop [] zero x rest at = cc
get_elem?-drop [] (suc pos) x rest at = cc
get_elem?-drop (y ∷ ys) zero x rest at = cc
get_elem?-drop (y ∷ ys) (suc pos) x rest at = get_elem?-drop ys pos x rest at

pub get_elem?-At :
    (data' : Bytes) (pos x : ℕ) (rest : Bytes)
    → At data' pos (x ∷ rest)
    → get_elem? data' pos ≡ some x
get_elem?-At data' pos x rest at = get_elem?-drop data' pos x rest at.dropped

-- What is left at `pos` begins with the two bytes of a 16-bit number.
pub word16-At :
    (data' : Bytes) (pos n : ℕ) (rest : Bytes)
    → At data' pos (encode16 n ++ rest)
    → n < 2 ^ 16
    → word16 data' pos ≡ some n
unfolding word16
word16-At data' pos n rest at small =
    rw
      (
        get_elem?-At data' pos (n / 256) ((n % 256) ∷ rest) at,
        get_elem?-At data' (pos + 1) (n % 256) rest
            (At-skip data' pos 1 (pos + 1) ((n / 256) ∷ []) ((n % 256) ∷ rest) at refl refl),
      )
      (ap some (omega arith))

slice-At :
    (data' : Bytes) (pos : ℕ) (xs rest : Bytes)
    → At data' pos (xs ++ rest)
    → slice data' pos (length xs) ≡ some xs
unfolding slice
slice-At data' pos xs rest at =
    let fits : leb (pos + length xs) (length data') ≡ true =
      ground (arith, at.measured, length-append xs rest) in
    rw (fits, at.dropped, take-append xs rest)

abbrev pub name_body : Bytes → Bytes → Bytes
name_body name after =
    encode16 (length name + 3) ++ (0 ∷ (encode16 (length name) ++ (name ++ after)))

server_name-At :
    (data' : Bytes) (pos end_pos : ℕ) (name after : Bytes)
    → At data' pos (name_body name after)
    → length name < 2 ^ 16
    → pos + 5 + length name ≤ end_pos
    → server_name data' pos end_pos ≡ some name
unfolding server_name
server_name-At data' pos end_pos name after at small inside =
    let at2 = At-skip data' pos 2 (pos + 2) (encode16 (length name + 3)) _ at refl refl in
    let at3 =
      At-skip data' pos 3 (pos + 3) (encode16 (length name + 3) ++ (0 ∷ []))
        (encode16 (length name) ++ (name ++ after)) at refl refl in
    let at5 =
      At-skip data' (pos + 3) 2 (pos + 5) (encode16 (length name)) (name ++ after) at3 refl
        (omega arith) in
    let kind = get_elem?-At data' (pos + 2) 0 _ at2 in
    let len = word16-At data' (pos + 3) (length name) _ at3 small in
    let long : ltb end_pos (pos + 5) ≡ false = ground arith in
    let whole : ltb end_pos (pos + 5 + length name) ≡ false = ground arith in
    rw (long, kind, len, whole) (slice-At data' (pos + 5) name after at5)

-- The server_name extension, and what follows it.
abbrev pub name_extension : Bytes → Bytes → Bytes
name_extension name after = encode16 0 ++ (encode16 (length name + 5) ++ name_body name after)

pub walk-At :
    (es : List Extension) (fuel : ℕ) (data' : Bytes) (pos end_pos : ℕ) (name after : Bytes)
    → At data' pos (encode_extensions es ++ name_extension name after)
    → All IsOther es
    → length name + 5 < 2 ^ 16
    → pos + length (encode_extensions es) + 9 + length name ≤ end_pos
    → length (encode_extensions es) < fuel
    → walk fuel data' pos end_pos ≡ some name
unfolding walk
walk-At es zero data' pos end_pos name after at other small inside enough = absurd (omega arith)
walk-At [] (suc fuel) data' pos end_pos name after at other small inside enough =
    let room : leb (pos + 4) end_pos ≡ true = ground arith in
    let kind = word16-At data' pos 0 _ at (omega arith) in
    let at2 = At-skip data' pos 2 (pos + 2) (encode16 0) _ at refl refl in
    let len = word16-At data' (pos + 2) (length name + 5) _ at2 small in
    let at4 =
      At-skip data' (pos + 2) 2 (pos + 4) (encode16 (length name + 5)) _ at2 refl (omega arith) in
    rw (room, walk, kind, len)
      (server_name-At data' (pos + 4) end_pos name after at4 (omega arith) (omega arith))
walk-At (e ∷ es) (suc fuel) data' pos end_pos name after at other small inside enough =
    let tail = name_extension name after in
    let total : length (encode_extensions (e ∷ es))
        ≡ 4 + length e.body + length (encode_extensions es) =
      omega (arith, length-append e.body (encode_extensions es)) in
    let room : leb (pos + 4) end_pos ≡ true = ground (arith, total) in
    let kind = word16-At data' pos e.kind _ at other.0.1 in
    let at2 = At-skip data' pos 2 (pos + 2) (encode16 e.kind) _ at refl refl in
    let len = word16-At data' (pos + 2) (length e.body) _ at2 other.0.2 in
    let at4 =
      At-skip data' (pos + 2) 2 (pos + 4) (encode16 (length e.body)) _ at2 refl (omega arith) in
    let next =
      At-skip data' (pos + 4) (length e.body) (pos + 4 + length e.body) e.body
        (encode_extensions es ++ tail)
        (subst (At data' (pos + 4)) (append_assoc e.body (encode_extensions es) tail) at4) refl
        refl in
    let differs : (e.kind == 0) ≡ false = ground (arith, other.0.0) in
    rw (room, walk, kind, len, differs)
      (walk-At es fuel data' (pos + 4 + length e.body) end_pos name after next other.1 small
        (omega (arith, total)) (omega (arith, total)))
