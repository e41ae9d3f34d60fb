-- ===== src/Proxy/Heads.antt =====
-- The answers that `simpleResponseWriter` of internal/proxy/server.go sends.
use multi_protocol_proxy.Prelude.{
  ℕ, Bool, true, false, not, List, [], ◌∷◌, ◌++◌, some, Bytes, ◌≡◌, refl, sym, ap, subst,
  if◌then◌else◌, inl, inr, ◌⊎◌,
}
use multi_protocol_proxy.Proxy.Writer.{
  Sent, head, body, Writer, new_writer, set_header, write_header, write, Call, sets, writes_header,
  writes, call, calls, route_calls, ApiRequest, handle_internal_api,
}

-- Pieces of a body only.
abbrev pub only_body : List Sent → Bool
only_body [] = true
only_body (head status h ∷ es) = false
only_body (body b ∷ es) = only_body es

-- One status line with its header, and then pieces of a body only.
abbrev pub one_head : List Sent → Bool
one_head [] = false
one_head (head status h ∷ es) = only_body es
one_head (body b ∷ es) = false

only_body-append :
    (es : List Sent) (b : Bytes) → only_body es ≡ true → only_body (es ++ (body b ∷ [])) ≡ true
only_body-append [] b v = refl
only_body-append (head status h ∷ es) b v = cc (v)
only_body-append (body c ∷ es) b v = only_body-append es b v

one_head-append :
    (es : List Sent) (b : Bytes) → one_head es ≡ true → one_head (es ++ (body b ∷ [])) ≡ true
one_head-append [] b v = cc (v)
one_head-append (head status h ∷ es) b v = only_body-append es b v
one_head-append (body c ∷ es) b v = cc (v)

-- Nothing is sent before the header is written, and one head and then a body from there on.
abbrev pub IsOrdered : Writer → Type 0
IsOrdered w =
    ((w.wrote_header ≡ false) × (w.wire ≡ []))
    ⊎ ((w.wrote_header ≡ true) × (one_head w.wire ≡ true))

abbrev HasHead : Writer → Type 0
HasHead w = (w.wrote_header ≡ true) × (one_head w.wire ≡ true)

if_true : (b : Bool) (x y : Writer) → b ≡ true → (if b then x else y) ≡ x
if_true b x y e = rw e refl

if_false : (b : Bool) (x y : Writer) → b ≡ false → (if b then x else y) ≡ y
if_false b x y e = rw e refl

write_header-HasHead :
    (date : Bytes) (status : ℕ) (w : Writer) → IsOrdered w → HasHead (write_header date status w)
unfolding write_header
write_header-HasHead date status w (inl (fresh, empty)) =
    subst HasHead (sym (if_false w.wrote_header w _ fresh)) (refl, rw empty refl)
write_header-HasHead date status w (inr v) = subst HasHead (sym (if_true w.wrote_header w _ v.0)) v

-- `if !w.wroteHeader { w.WriteHeader(http.StatusOK) }`.
headed-HasHead :
    (date : Bytes) (w : Writer)
    → IsOrdered w
    → HasHead (if not w.wrote_header then write_header date 200 w else w)
headed-HasHead date w (inl v) =
    subst HasHead (sym (if_true (not w.wrote_header) _ w (ap not v.0)))
      (write_header-HasHead date 200 w (inl v))
headed-HasHead date w (inr v) =
    subst HasHead (sym (if_false (not w.wrote_header) _ w (ap not v.0))) v

write-HasHead : (date b : Bytes) (w : Writer) → IsOrdered w → HasHead (write date b w)
unfolding write
write-HasHead date b w v =
    let w' = if not w.wrote_header then write_header date 200 w else w in
    let ready = headed-HasHead date w v in (ready.0, one_head-append w'.wire b ready.1)

calls-IsOrdered :
    (date : Bytes) (cs : List Call) (w : Writer) → IsOrdered w → IsOrdered (calls date cs w)
unfolding calls call
calls-IsOrdered date [] w v = v
calls-IsOrdered date (sets key value ∷ cs) w v = calls-IsOrdered date cs (set_header key value w) v
calls-IsOrdered date (writes_header status ∷ cs) w v =
    calls-IsOrdered date cs (write_header date status w)
      (inr (write_header-HasHead date status w v))
calls-IsOrdered date (writes b ∷ cs) w v =
    calls-IsOrdered date cs (write date b w) (inr (write-HasHead date b w v))

-- The answer to a request that can be read is one status line with its header and then the body,
-- whatever the path and the method.
pub internal_api-one_head :
    (date origin stats history : Bytes) (req : ApiRequest)
    → one_head (handle_internal_api date origin stats history (some req)) ≡ true
unfolding handle_internal_api
internal_api-one_head date origin stats history req =
    let w = calls date (route_calls origin stats history req) new_writer in
    (headed-HasHead date w
      (calls-IsOrdered date (route_calls origin stats history req) new_writer (inl (refl, refl)))).1
