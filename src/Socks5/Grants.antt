-- ===== src/Socks5/Grants.antt =====
-- What a client has sent where the negotiation of internal/socks5/server.go ends with a user name,
-- and what `ValidateCredentials` says of it.
use multi_protocol_proxy.Prelude.{
  ℕ, zero, suc, Bool, true, false, not, some, [], ◌∷◌, ◌++◌, Bytes, ◌≡◌, refl, sym, ap, ◌∙◌, arith,
  subst, if◌then◌else◌, Option-cases, Bool-cases, inl, inr, length, length-take, take, drop, leb,
  leb→le, append_assoc, ◌==◌, codes,
}
use multi_protocol_proxy.Host.{Host}
use multi_protocol_proxy.Auth.{User, validate_credentials}
use multi_protocol_proxy.Socks5.Wire.{
  wrote, auth_failure, user_pass_version, version5, method_no_acceptable, method_user_pass, Session,
  Outcome, done, failed, M, ◌>>=◌, ◌>>◌, emit, fail, read_full, check_password, authenticate_user,
  handle_method_negotiation, offers_user_pass, byte_at, no_acceptable_method,
  unsupported_auth_version, unsupported_version,
}
use multi_protocol_proxy.Socks5.Quiet.{session_of}
use multi_protocol_proxy.Socks5.Dialogue.{greeting, user_pass}

-- Bytes that are read, and what is behind them.
record Taken (n : ℕ) (f : Bytes → M Bytes) (s : Session) (u : Bytes) (s' : Session) : Type 0 where
  xs : Bytes
  rest : Bytes
  whole : length xs ≡ n
  front : s.input ≡ xs ++ rest
  later : f xs (record s { input = rest }) ≡ done u s'

take++drop : (n : ℕ) (xs : Bytes) → xs ≡ take n xs ++ drop n xs
take++drop zero xs = refl
take++drop (suc n) [] = refl
take++drop (suc n) (x ∷ xs) = ap (x ∷◌) (take++drop n xs)

is_done : Outcome Bytes → Bool
is_done (done a s) = true
is_done (failed e s) = false

no_clash : false ≡ true → ⊥
no_clash e = cc (e)

read-Taken :
    (n : ℕ) (f : Bytes → M Bytes) (s : Session) (u : Bytes) (s' : Session)
    → (read_full n >>= f) s ≡ done u s'
    → Taken n f s u s'
unfolding read_full is_done
read-Taken n f s u s' e = elim (Bool-cases (leb n (length s.input))) [
  | inl enough ↦
      let whole = length-take n s.input (leb→le _ _ enough) in
      record {
        xs = take n s.input;
        rest = drop n s.input;
        whole = whole;
        front = take++drop n s.input;
        later = rw (enough, read_full, ◌>>=◌) at e;
      }
  | inr short ↦
      let stopped : is_done ((read_full n >>= f) s) ≡ false = rw (short, read_full, ◌>>=◌) refl in
      absurd (no_clash (sym stopped ∙ ap is_done e))
]

-- A test that a negotiation has passed.
if-done :
    (b : Bool) (m n : M Bytes) (s : Session) (u : Bytes) (s' : Session)
    → is_done (m s) ≡ false
    → (if not b then m else n) s ≡ done u s'
    → (b ≡ true) × (n s ≡ done u s')
unfolding is_done
if-done true m n s u s' stops e = (refl, e)
if-done false m n s u s' stops e = absurd (no_clash (sym stops ∙ ap is_done e))

-- The two bytes of a header.
two_bytes :
    (xs : Bytes) (a b : ℕ) → length xs ≡ 2 → byte_at xs 0 ≡ a → byte_at xs 1 ≡ b → xs ≡ a ∷ b ∷ []
two_bytes [] a b len e f = absurd (omega (arith, len))
two_bytes (x ∷ []) a b len e f = absurd (omega (arith, len))
two_bytes (x ∷ (y ∷ [])) a b len e f = rw (e, f) refl
two_bytes (x ∷ (y ∷ (z ∷ xs))) a b len e f = absurd (omega (arith, len))

one_byte : (xs : Bytes) (a : ℕ) → length xs ≡ 1 → byte_at xs 0 ≡ a → xs ≡ a ∷ []
one_byte [] a len e = absurd (omega (arith, len))
one_byte (x ∷ []) a len e = rw e refl
one_byte (x ∷ (y ∷ xs)) a len e = absurd (omega (arith, len))

record Checked (h : Host) (now : ℕ) (u p : Bytes) (s : Session) (v : Bytes) (s' : Session)
    : Type 0 where
  name : u ≡ v
  user : User
  valid : (validate_credentials h s.store now u p).1 ≡ some user
  stored : s'.store ≡ (validate_credentials h s.store now u p).0

check_password-Checked :
    (h : Host) (now : ℕ) (u p : Bytes) (s : Session) (v : Bytes) (s' : Session)
    → check_password h now u p s ≡ done v s'
    → Checked h now u p s v s'
unfolding check_password is_done
check_password-Checked h now u p s v s' e =
    let r = validate_credentials h s.store now u p in
    elim (Option-cases r.1) [
      | inl bad ↦
          let clash : is_done (check_password h now u p s) ≡ false =
            rw (bad, check_password) refl in
          absurd (no_clash (sym clash ∙ ap is_done e))
      | inr (user, good) ↦
          let ended : check_password h now u p s
              ≡ done u (record s {
                store = r.0;
                trace = s.trace ++ (wrote (user_pass_version ∷ 0x00 ∷ []) ∷ []);
              }) =
            rw (good, check_password) in
          let same : done u (record s {
            store = r.0;
            trace = s.trace ++ (wrote (user_pass_version ∷ 0x00 ∷ []) ∷ []);
          })
              ≡ done v s' =
            sym ended ∙ e in
          record {
            name = cc (same);
            user = user;
            valid = good;
            stored = sym (ap (λ o. (session_of o).store) same);
          }
    ]

-- A name and a password stand at the front of an input, and `ValidateCredentials` accepts them.
record Authenticated (h : Host) (now : ℕ) (s : Session) (username : Bytes) (s' : Session)
    : Type 0 where
  password : Bytes
  rest : Bytes
  sent : s.input ≡ user_pass username password ++ rest
  user : User
  valid : (validate_credentials h s.store now username password).1 ≡ some user
  stored : s'.store ≡ (validate_credentials h s.store now username password).0

authenticate_user-Authenticated :
    (h : Host) (now : ℕ) (s : Session) (v : Bytes) (s' : Session)
    → authenticate_user h now s ≡ done v s'
    → Authenticated h now s v s'
unfolding authenticate_user is_done
authenticate_user-Authenticated h now s v s' e =
    let head = read-Taken 2 _ s v s' e in
    let s1 : Session = record s { input = head.rest } in
    let (version, e1) =
      if-done (byte_at head.xs 0 == user_pass_version) (fail unsupported_auth_version) _ s1 v s'
        refl head.later in
    let name = read-Taken (byte_at head.xs 1) _ s1 v s' e1 in
    let s2 : Session = record s { input = name.rest } in
    let len = read-Taken 1 _ s2 v s' name.later in
    let s3 : Session = record s { input = len.rest } in
    let secret = read-Taken (byte_at len.xs 0) _ s3 v s' len.later in
    let s4 : Session = record s { input = secret.rest } in
    let checked = check_password-Checked h now name.xs secret.xs s4 v s' secret.later in
    let front : head.xs ≡ user_pass_version ∷ length name.xs ∷ [] =
      two_bytes head.xs _ _ head.whole (ground (arith, version)) (sym name.whole) in
    let middle : len.xs ≡ length secret.xs ∷ [] = one_byte len.xs _ len.whole (sym secret.whole) in
    let sent : s.input ≡ user_pass name.xs secret.xs ++ secret.rest =
      head.front
      ∙ ap (λ t. t ++ head.rest) front
      ∙ ap (λ t. user_pass_version ∷ length name.xs ∷ t)
          (name.front
            ∙ ap (name.xs ++◌)
                (len.front ∙ ap (λ t. t ++ len.rest) middle ∙ ap (length secret.xs ∷◌) secret.front)
            ∙ sym (append_assoc name.xs (length secret.xs ∷ secret.xs) secret.rest)) in
    record {
      password = secret.xs;
      rest = secret.rest;
      sent = subst (λ u. s.input ≡ user_pass u secret.xs ++ secret.rest) checked.name sent;
      user = checked.user;
      valid =
          subst (λ u. (validate_credentials h s.store now u secret.xs).1 ≡ some checked.user)
            checked.name checked.valid;
      stored =
          subst (λ u. s'.store ≡ (validate_credentials h s.store now u secret.xs).0) checked.name
            checked.stored;
    }

-- The client has sent a greeting that offers the method of a user name and a password, and then this
-- name and a password; `ValidateCredentials` accepts them against the store at the start, and the
-- store is the one that call left.
pub record Granted (h : Host) (now : ℕ) (s : Session) (username : Bytes) (s' : Session)
    : Type 0 where
  pub methods : Bytes
  pub password : Bytes
  pub rest : Bytes
  pub offered : offers_user_pass methods ≡ true
  pub sent : s.input ≡ greeting methods ++ (user_pass username password ++ rest)
  pub user : User
  pub valid : (validate_credentials h s.store now username password).1 ≡ some user
  pub stored : s'.store ≡ (validate_credentials h s.store now username password).0

refuse : M Bytes
refuse = do
  emit (wrote (version5 ∷ method_no_acceptable ∷ []))
  emit (auth_failure (codes "no_auth_method"))
  fail no_acceptable_method

-- What a negotiation that ends with a user name has read.
pub negotiation-Granted :
    (h : Host) (now : ℕ) (s : Session) (v : Bytes) (s' : Session)
    → handle_method_negotiation h now s ≡ done v s'
    → Granted h now s v s'
unfolding handle_method_negotiation is_done refuse
negotiation-Granted h now s v s' e =
    let head = read-Taken 2 _ s v s' e in
    let s1 : Session = record s { input = head.rest } in
    let (version, e1) =
      if-done (byte_at head.xs 0 == version5) (fail unsupported_version) _ s1 v s' refl
        head.later in
    let methods = read-Taken (byte_at head.xs 1) _ s1 v s' e1 in
    let s2 : Session = record s { input = methods.rest } in
    let (offered, e2) = if-done (offers_user_pass methods.xs) refuse _ s2 v s' refl methods.later in
    let s3 : Session = record s2 {
      trace = s.trace ++ (wrote (version5 ∷ method_user_pass ∷ []) ∷ []);
    } in
    let a = authenticate_user-Authenticated h now s3 v s' e2 in
    let front : head.xs ≡ version5 ∷ length methods.xs ∷ [] =
      two_bytes head.xs _ _ head.whole (ground (arith, version)) (sym methods.whole) in
    record {
      methods = methods.xs;
      password = a.password;
      rest = a.rest;
      offered = offered;
      sent =
          head.front
          ∙ ap (λ t. t ++ head.rest) front
          ∙ ap (λ t. version5 ∷ length methods.xs ∷ t) (methods.front ∙ ap (methods.xs ++◌) a.sent);
      user = a.user;
      valid = a.valid;
      stored = a.stored;
    }
