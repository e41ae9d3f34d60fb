-- ===== src/Socks5/Quiet.antt =====
-- The tracker and the dials while the messages of internal/socks5/server.go are exchanged.
use multi_protocol_proxy.Prelude.{
  ℕ, Bool, true, false, List, [], ◌∷◌, ◌++◌, Option, Bytes, ◌≡◌, refl, ap, ◌∙◌, subst, append-nil,
  if◌then◌else◌, Bool-cases, Option-cases, inl, inr, leb, length,
}
use multi_protocol_proxy.Host.{Host}
use multi_protocol_proxy.Auth.{validate_credentials}
use multi_protocol_proxy.Socks5.Wire.{
  Event, wrote, dialed, auth_failure, Session, Error, Outcome, done, failed, M, ◌>>=◌, emit, fail,
  return, read_full, check_password, authenticate_user, handle_method_negotiation, read_host,
  send_reply, reply_bytes, TcpAddr, handle_request,
}

abbrev pub session_of : {A : Type 0} → Outcome A → Session
session_of (done a s) = s
session_of (failed e s) = s

-- The targets that the handler has dialed.
abbrev pub dials : List Event → List Bytes
dials [] = []
dials (dialed t ∷ es) = t ∷ dials es
dials (_ ∷ es) = dials es

pub dials-append : (xs ys : List Event) → dials (xs ++ ys) ≡ dials xs ++ dials ys
dials-append [] ys = refl
dials-append (dialed t ∷ es) ys = ap (◌∷◌ t) (dials-append es ys)
dials-append (wrote b ∷ es) ys = dials-append es ys
dials-append (_ ∷ es) ys = dials-append es ys

-- What the messages on the wire leave alone: the tracker and the dials.
abbrev Quiet : Session → Session → Type 0
Quiet s s' = (s'.tracker ≡ s.tracker) × (dials s'.trace ≡ dials s.trace)

abbrev IsQuiet : {A : Type 0} → M A → Type 0
IsQuiet m = (s : Session) → Quiet s (session_of (m s))

>>=-IsQuiet :
    {A B : Type 0} (m : M A) (f : A → M B)
    → IsQuiet m
    → ((a : A) → IsQuiet (f a))
    → IsQuiet (m >>= f)
>>=-IsQuiet m f qm qf s = go (m s) refl
  where
    go : (o : Outcome _) → m s ≡ o → Quiet s (session_of ((m >>= f) s))
    go (done a s') e =
        let first : Quiet s s' = subst (λ o. Quiet s (session_of o)) e (qm s) in
        let second = qf a s' in rw (e, ◌>>=◌) (second.0 ∙ first.0, second.1 ∙ first.1)
    go (failed x s') e = rw (e, ◌>>=◌) (subst (λ o. Quiet s (session_of o)) e (qm s))

read_full-IsQuiet : (n : ℕ) → IsQuiet (read_full n)
unfolding read_full
read_full-IsQuiet n s = elim (Bool-cases (leb n (length s.input))) [
  | inl e ↦ rw e (refl, refl)
  | inr e ↦ rw e (refl, refl)
]

emit-IsQuiet : (e : Event) → dials (e ∷ []) ≡ [] → IsQuiet (emit e)
emit-IsQuiet e none_dialed s = (
  refl,
  dials-append s.trace (e ∷ [])
      ∙ ap (◌++◌ (dials s.trace)) none_dialed
      ∙ append-nil (dials s.trace),
)

wrote-IsQuiet : (b : Bytes) → IsQuiet (emit (wrote b))
wrote-IsQuiet b = emit-IsQuiet (wrote b) refl

auth_failure-IsQuiet : (b : Bytes) → IsQuiet (emit (auth_failure b))
auth_failure-IsQuiet b = emit-IsQuiet (auth_failure b) refl

fail-IsQuiet : (A : Type 0) (e : Error) → IsQuiet (fail {A = A} e)
fail-IsQuiet A e s = (refl, refl)

return-IsQuiet : {A : Type 0} (a : A) → IsQuiet (return a)
return-IsQuiet a s = (refl, refl)

if-IsQuiet :
    {A : Type 0} (b : Bool) (m n : M A) → IsQuiet m → IsQuiet n → IsQuiet (if b then m else n)
if-IsQuiet true m n qm qn = qm
if-IsQuiet false m n qm qn = qn

check_password-IsQuiet : (h : Host) (now : ℕ) (u p : Bytes) → IsQuiet (check_password h now u p)
unfolding check_password
check_password-IsQuiet h now u p s =
    elim (Option-cases (validate_credentials h s.store now u p).1) [
      | inl e ↦ rw (e, check_password) (simp (dials-append, append-nil) (refl, refl))
      | inr (user, e) ↦ rw (e, check_password) (simp (dials-append, append-nil) (refl, refl))
    ]

authenticate_user-IsQuiet : (h : Host) (now : ℕ) → IsQuiet (authenticate_user h now)
unfolding authenticate_user
authenticate_user-IsQuiet h now =
    search (>>=-IsQuiet, read_full-IsQuiet, if-IsQuiet, fail-IsQuiet, check_password-IsQuiet) depth
      12

pub negotiation-IsQuiet : (h : Host) (now : ℕ) → IsQuiet (handle_method_negotiation h now)
unfolding handle_method_negotiation
negotiation-IsQuiet h now =
    search
      (
        >>=-IsQuiet, read_full-IsQuiet, if-IsQuiet, fail-IsQuiet, authenticate_user-IsQuiet,
        wrote-IsQuiet, auth_failure-IsQuiet,
      )
      depth 14

send_reply-IsQuiet : (r : ℕ) (a : Option TcpAddr) → IsQuiet (send_reply r a)
unfolding send_reply
send_reply-IsQuiet r a = wrote-IsQuiet (reply_bytes r a)

read_host-IsQuiet : (h : Host) (t : ℕ) → IsQuiet (read_host h t)
unfolding read_host
read_host-IsQuiet h t =
    search
      (>>=-IsQuiet, read_full-IsQuiet, if-IsQuiet, fail-IsQuiet, return-IsQuiet, send_reply-IsQuiet)
      depth 14

pub handle_request-IsQuiet : (h : Host) → IsQuiet (handle_request h)
unfolding handle_request
handle_request-IsQuiet h =
    search
      (
        >>=-IsQuiet, read_full-IsQuiet, if-IsQuiet, fail-IsQuiet, return-IsQuiet,
        send_reply-IsQuiet, read_host-IsQuiet,
      )
      depth 14
