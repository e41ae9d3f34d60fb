-- ===== src/Auth/Steps.antt =====
-- `ValidateCredentials` of internal/auth/auth.go as the steps between which it lets its locks go.
use multi_protocol_proxy.Prelude.{
  ℕ, ◌+◌, ◌<◌, true, Option, none, some, Bytes, ◌≡◌, refl, ap, ◌∙◌, lookup, insert, to_lower,
  lookup-insert_self, lt→ltb, if◌then◌else◌, Option-cases, Bool-cases, inl, inr,
}
use multi_protocol_proxy.Host.{Host}
use multi_protocol_proxy.Auth.{
  User, UserStore, cache_key, cred_cache_ttl, fresh_entry, verify, validate_credentials,
}

-- Where a call stands: it has asked, it has not found the cache of use, it has compared the
-- password with the hash of the user that it read, or it has answered.
pub data Call : Type 0 where
  asked missed : Call
  compared : User → Call
  answered : Option User → Call

-- Under `credCacheMu`.
unfoldable pub read_cache : Host → UserStore → ℕ → Bytes → Bytes → Call
read_cache h s now username password =
    elim (fresh_entry (lookup (cache_key h username password) s.cred_cache) now) [
      | none ↦ missed
      | some user ↦ answered (some user)
    ]

-- Under `mu`, and then the comparison, which needs no lock.
unfoldable pub read_users : Host → UserStore → Bytes → Bytes → Call
read_users h s username password = elim (lookup (to_lower username) s.users) [
  | none ↦ answered none
  | some user ↦ if h.compare_hash user.password_hash password then compared user else answered none
]

-- Under `credCacheMu` again.
unfoldable pub write_cache : Host → UserStore → ℕ → Bytes → Bytes → User → UserStore
write_cache h s now username password user = record s {
  cred_cache =
      insert (cache_key h username password)
        (record { user = user; valid_until = now + cred_cache_ttl }) s.cred_cache;
}

-- The next step of a call, and the store that it leaves.
unfoldable pub advance : Host → ℕ → Bytes → Bytes → UserStore → Call → UserStore × Call
advance h now username password s asked = (s, read_cache h s now username password)
advance h now username password s missed = (s, read_users h s username password)
advance h now username password s (compared user) =
    (write_cache h s now username password user, answered (some user))
advance h now username password s (answered user) = (s, answered user)

abbrev pub next : Host → ℕ → Bytes → Bytes → UserStore × Call → UserStore × Call
next h now username password (s, call) = advance h now username password s call

-- Three steps with nothing between them.
abbrev pub uninterrupted : Host → ℕ → Bytes → Bytes → UserStore → UserStore × Call
uninterrupted h now u p s = next h now u p (next h now u p (next h now u p (s, asked)))

-- Something else takes the locks between the comparison and the write.
abbrev pub overtaken :
    Host → ℕ → Bytes → Bytes → UserStore → (UserStore → UserStore) → UserStore × Call
overtaken h now u p s other =
    let (s', call) = next h now u p (next h now u p (s, asked)) in next h now u p (other s', call)

read_cache-hit :
    (h : Host) (s : UserStore) (now : ℕ) (u p : Bytes) (user : User)
    → fresh_entry (lookup (cache_key h u p) s.cred_cache) now ≡ some user
    → read_cache h s now u p ≡ answered (some user)
unfolding read_cache
read_cache-hit h s now u p user e = rw (e, read_cache) refl

read_cache-miss :
    (h : Host) (s : UserStore) (now : ℕ) (u p : Bytes)
    → fresh_entry (lookup (cache_key h u p) s.cred_cache) now ≡ none
    → read_cache h s now u p ≡ missed
unfolding read_cache
read_cache-miss h s now u p e = rw (e, read_cache) refl

behind_cache :
    (h : Host) (s : UserStore) (now : ℕ) (u p : Bytes)
    → let v = verify h s now u p (cache_key h u p) in
      advance h now u p s (read_users h s u p) ≡ (v.0, answered v.1)
unfolding advance read_users write_cache verify
behind_cache h s now u p = elim (Option-cases (lookup (to_lower u) s.users)) [
  | inl gone ↦ rw (gone, read_users, verify, advance) refl
  | inr (user, listed) ↦ elim (Bool-cases (h.compare_hash user.password_hash p)) [
    | inl good ↦ rw (listed, good, read_users, verify, advance) refl
    | inr bad ↦ rw (listed, bad, read_users, verify, advance) refl
  ]
]

-- A call whose steps follow each other, with nothing between them, is `ValidateCredentials` in one
-- step: after three it has answered, with the same answer and the same store.
pub uninterrupted-validate :
    (h : Host) (s : UserStore) (now : ℕ) (u p : Bytes)
    → let v = validate_credentials h s now u p in uninterrupted h now u p s ≡ (v.0, answered v.1)
unfolding advance validate_credentials verify
uninterrupted-validate h s now u p =
    elim (Option-cases (fresh_entry (lookup (cache_key h u p) s.cred_cache) now)) [
      | inr (user, e) ↦
          ap (λ c. next h now u p (next h now u p (s, c))) (read_cache-hit h s now u p user e)
          ∙ rw (e, validate_credentials) refl
      | inl e ↦
          ap (λ c. next h now u p (next h now u p (s, c))) (read_cache-miss h s now u p e)
          ∙ behind_cache h s now u p
          ∙ rw (e, validate_credentials) refl
    ]

validate-hit :
    (h : Host) (s : UserStore) (now until : ℕ) (u p : Bytes) (user : User)
    → lookup (cache_key h u p) s.cred_cache ≡ some (record { user = user; valid_until = until })
    → now < until
    → (validate_credentials h s now u p).1 ≡ some user
unfolding fresh_entry validate_credentials
validate-hit h s now until u p user found young =
    rw (found, lt→ltb now until young, validate_credentials) refl

-- When a call has compared a listed user's password, and another call replaces the store in any way
-- before the write, the user is accepted from then on until its entry is five minutes old: also a
-- user that the other call has removed or given another password.
pub overtaken-accepts :
    (h : Host) (s : UserStore) (now later : ℕ) (u p : Bytes) (user : User)
    (other : UserStore → UserStore)
    → lookup (cache_key h u p) s.cred_cache ≡ none
    → lookup (to_lower u) s.users ≡ some user
    → h.compare_hash user.password_hash p ≡ true
    → later < now + cred_cache_ttl
    → (validate_credentials h (overtaken h now u p s other).0 later u p).1 ≡ some user
unfolding advance read_users write_cache fresh_entry
overtaken-accepts h s now later u p user other missing listed good young =
    ap (λ x. (validate_credentials h (next h now u p (other x.0, x.1)).0 later u p).1) compared_it
    ∙ validate-hit h _ later (now + cred_cache_ttl) u p user
        (lookup-insert_self (cache_key h u p) _ (other s).cred_cache) young
  where
    compared_it : next h now u p (next h now u p (s, asked)) ≡ (s, compared user)
    compared_it =
        ap (λ c. next h now u p (s, c))
          (read_cache-miss h s now u p (rw (missing, fresh_entry) refl))
        ∙ rw (listed, good, read_users) refl
