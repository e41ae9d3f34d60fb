-- ===== src/Auth/Cache.antt =====
-- The cache of checked credentials in internal/auth/auth.go: what a hit stands for.
use multi_protocol_proxy.Prelude.{
  ℕ, ◌+◌, ◌<◌, true, false, [], ◌∷◌, ◌++◌, Option, none, some, Bytes, ◌≡◌, refl, sym, ap, ◌∙◌,
  arith, append_assoc, codes, contains_byte, lookup, insert, to_lower, lookup-delete_if,
  has_prefix-append, Option-cases, Bool-cases, inl, inr, some_inj, lookup-insert_cases, subst,
}
use multi_protocol_proxy.Host.{Host, CollisionFree, DigestsAreHex}
use multi_protocol_proxy.Auth.{
  User, UserStore, CredCacheEntry, cache_key, fresh_entry, verify, validate_credentials,
  invalidate_user, cred_cache_ttl,
}

true_not_false : true ≡ false → ⊥
true_not_false e = cc (e)

contains_byte-middle : (xs ys : Bytes) (b : ℕ) → contains_byte (xs ++ (b ∷ ys)) b ≡ true
unfolding contains_byte
contains_byte-middle [] ys b = ground arith
contains_byte-middle (x ∷ xs) ys b = ground (arith, contains_byte-middle xs ys b)

-- A text is split in one way at its last colon.
last_colon-cancel :
    (xs ys as' bs : Bytes)
    → contains_byte as' b':' ≡ false
    → contains_byte bs b':' ≡ false
    → xs ++ (b':' ∷ as') ≡ ys ++ (b':' ∷ bs)
    → (xs ≡ ys) × (as' ≡ bs)
last_colon-cancel [] [] as' bs a b e = (refl, cc (e))
last_colon-cancel [] (y ∷ ys) as' bs a b e =
    let same : as' ≡ ys ++ (b':' ∷ bs) = cc (e) in
    absurd (
      true_not_false
        (sym (contains_byte-middle ys bs b':') ∙ ap (λ s. contains_byte s b':') (sym same) ∙ a))
last_colon-cancel (x ∷ xs) [] as' bs a b e =
    let same : xs ++ (b':' ∷ as') ≡ bs = cc (e) in
    absurd (
      true_not_false
        (sym (contains_byte-middle xs as' b':') ∙ ap (λ s. contains_byte s b':') same ∙ b))
last_colon-cancel (x ∷ xs) (y ∷ ys) as' bs a b e =
    let t : xs ++ (b':' ∷ as') ≡ ys ++ (b':' ∷ bs) = cc (e) in
    let r = last_colon-cancel xs ys as' bs a b t in
    let hd : x ≡ y = cc (e) in ((λ i. hd i ∷ r.0 i), r.1)

-- Two credentials share a key only if the names agree up to case and the passwords agree.
pub cache_key-injective :
    (h : Host) (u v p q : Bytes)
    → CollisionFree h
    → DigestsAreHex h
    → cache_key h u p ≡ cache_key h v q
    → (to_lower u ≡ to_lower v) × (p ≡ q)
unfolding cache_key
cache_key-injective h u v p q free digits e =
    let whole =
      last_colon-cancel (to_lower u) (to_lower v) (h.sha256_hex p) (h.sha256_hex q) (digits p)
        (digits q) e in
    (whole.0, free p q whole.1)

-- An entry stands for a user of the store whose password hash accepts the password.
pub record IsChecked (h : Host) (s : UserStore) (key : Bytes) (user : User) : Type 0 where
  pub username : Bytes
  pub password : Bytes
  pub keyed : key ≡ cache_key h username password
  pub listed : lookup (to_lower username) s.users ≡ some user
  pub accepted : h.compare_hash user.password_hash password ≡ true

-- Every entry of the cache has been checked against the users now loaded.
abbrev pub CacheIsSound : Host → UserStore → Type 0
CacheIsSound h s =
    (key : Bytes) (e : CredCacheEntry) → lookup key s.cred_cache ≡ some e → IsChecked h s key e.user

abbrev pub Accepts : Host → UserStore → Bytes → Bytes → User → Type 0
Accepts h s username password user =
    (lookup (to_lower username) s.users ≡ some user)
    × (h.compare_hash user.password_hash password ≡ true)

abbrev second : UserStore × Option User → Option User
second r = r.1

-- What `ValidateCredentials` returns, case by case.
data Outcome (h : Host) (s : UserStore) (now : ℕ) (u p : Bytes)
    : UserStore × Option User → Type 0 where
  hit :
      (e : CredCacheEntry)
      → lookup (cache_key h u p) s.cred_cache ≡ some e
      → now < e.valid_until
      → {r : UserStore × Option User} → r ≡ (s, some e.user)
      → Outcome h s now u p r
  checked :
      (user : User)
      → Accepts h s u p user
      → {r : UserStore × Option User}
      → r ≡ (
        record s {
          cred_cache =
              insert
                (cache_key h u p)
                (record { user = user; valid_until = now + cred_cache_ttl })
                s.cred_cache;
        },
        some user,
      )
      → Outcome h s now u p r
  refused :
      ((user : User) → ¬ Accepts h s u p user)
      → {r : UserStore × Option User} → r ≡ (s, none)
      → Outcome h s now u p r

verify-Outcome :
    (h : Host) (s : UserStore) (now : ℕ) (u p : Bytes)
    → Outcome h s now u p (verify h s now u p (cache_key h u p))
unfolding verify
verify-Outcome h s now u p = elim (Option-cases (lookup (to_lower u) s.users)) [
  | inl gone ↦ refused (λ user a. cc (gone, a.0)) (rw (gone, verify))
  | inr (user, listed) ↦ elim (Bool-cases (h.compare_hash user.password_hash p)) [
    | inl good ↦ checked user (listed, good) (ground arith)
    | inr bad ↦ refused (λ other a. ground (arith, a.0, a.1)) (ground arith)
  ]
]

fresh_entry-some :
    (o : Option CredCacheEntry) (now : ℕ) (u : User)
    → fresh_entry o now ≡ some u
    → (e : CredCacheEntry) × (o ≡ some e) × (now < e.valid_until) × (e.user ≡ u)
unfolding fresh_entry
fresh_entry-some none now u h = cc
fresh_entry-some (some e) now u h = (e, refl, ground arith, ground arith)

validate-Outcome :
    (h : Host) (s : UserStore) (now : ℕ) (u p : Bytes)
    → Outcome h s now u p (validate_credentials h s now u p)
unfolding validate_credentials
validate-Outcome h s now u p =
    elim (Option-cases (fresh_entry (lookup (cache_key h u p) s.cred_cache) now)) [
      | inl miss ↦ rw (miss, validate_credentials) (verify-Outcome h s now u p)
      | inr (user, found) ↦
          let (e, at_key, young, same) = fresh_entry-some _ now user found in
          rw (found, validate_credentials) (hit e at_key young (ap (λ x. (s, some x)) (sym same)))
    ]

pub IsChecked-same :
    (h : Host) (s t : UserStore) (key : Bytes) (user : User)
    → t.users ≡ s.users
    → IsChecked h s key user
    → IsChecked h t key user
IsChecked-same h s t key user same k = record {
  username = k.username;
  password = k.password;
  keyed = k.keyed;
  listed = ap (lookup (to_lower k.username)) same ∙ k.listed;
  accepted = k.accepted;
}

hit-Accepts :
    (h : Host) (s : UserStore) (u p : Bytes) (e : CredCacheEntry)
    → CollisionFree h
    → DigestsAreHex h
    → CacheIsSound h s
    → lookup (cache_key h u p) s.cred_cache ≡ some e
    → Accepts h s u p e.user
hit-Accepts h s u p e free digits sound at_key =
    let k = sound _ e at_key in
    let (names, passwords) = cache_key-injective h u k.username p k.password free digits k.keyed in
    (
      ap (λ n. lookup n s.users) names ∙ k.listed,
      ap (h.compare_hash e.user.password_hash) passwords ∙ k.accepted,
    )

-- Checking credentials keeps the cache sound, whatever the names and passwords.
pub validate-CacheIsSound :
    (h : Host) (s : UserStore) (now : ℕ) (u p : Bytes)
    → CacheIsSound h s
    → CacheIsSound h (validate_credentials h s now u p).0
validate-CacheIsSound h s now u p sound = go (validate-Outcome h s now u p)
  where
    go : {r : UserStore × Option User} → Outcome h s now u p r → CacheIsSound h r.0
    go (hit e _ _ same) = rw same sound
    go (refused _ same) = rw same sound
    go (checked user ok same) = rw same λ key e at_key.
        elim (lookup-insert_cases (cache_key h u p) key _ e s.cred_cache at_key) [
          | inl (keyed, new) ↦ record {
            username = u;
            password = p;
            keyed = sym keyed;
            listed = ok.0 ∙ ap (λ (c : CredCacheEntry). some c.user) new;
            accepted =
                ap (λ (c : CredCacheEntry). h.compare_hash c.user.password_hash p) (sym new) ∙ ok.1;
          }
          | inr old ↦ IsChecked-same h s _ key e.user refl (sound key e old)
        ]

-- With a sound cache, and digests in hexadecimal that do not collide, `ValidateCredentials`
-- accepts a name and a password only for the user that is listed under the lower-case name, and
-- only if the password matches that user's hash, whether it looks into the cache or not.
pub validate_sound :
    (h : Host) (s : UserStore) (now : ℕ) (u p : Bytes) (user : User)
    → CollisionFree h
    → DigestsAreHex h
    → CacheIsSound h s
    → (validate_credentials h s now u p).1 ≡ some user
    → Accepts h s u p user
validate_sound h s now u p user free digits sound e = go (validate-Outcome h s now u p) e
  where
    go :
        {r : UserStore × Option User}
        → Outcome h s now u p r
        → r.1 ≡ some user
        → Accepts h s u p user
    go (hit c at_key _ same) e =
        subst (Accepts h s u p) (some_inj (sym (ap second same) ∙ e))
          (hit-Accepts h s u p c free digits sound at_key)
    go (refused _ same) e = cc (ap second same)
    go (checked other ok same) e = subst (Accepts h s u p) (some_inj (sym (ap second same) ∙ e)) ok

-- With a sound cache, and digests in hexadecimal that do not collide, `ValidateCredentials`
-- accepts every listed user, under any case of the name, with a password that matches the hash.
pub validate_complete :
    (h : Host) (s : UserStore) (now : ℕ) (u p : Bytes) (user : User)
    → CollisionFree h
    → DigestsAreHex h
    → CacheIsSound h s
    → Accepts h s u p user
    → (validate_credentials h s now u p).1 ≡ some user
validate_complete h s now u p user free digits sound a = go (validate-Outcome h s now u p)
  where
    go : {r : UserStore × Option User} → Outcome h s now u p r → r.1 ≡ some user
    go (hit c at_key _ same) =
        ap second same ∙ sym (hit-Accepts h s u p c free digits sound at_key).0 ∙ a.0
    go (refused none_fits same) = absurd (none_fits user a)
    go (checked other ok same) = ap second same ∙ sym ok.0 ∙ a.0

-- After `InvalidateUser` no password is in the cache under any case of the user's name.
pub invalidate_user-lookup :
    (h : Host) (s : UserStore) (u v p : Bytes)
    → to_lower u ≡ to_lower v
    → lookup (cache_key h v p) (invalidate_user s u).cred_cache ≡ none
unfolding invalidate_user cache_key
invalidate_user-lookup h s u v p same = rw (
  lookup-delete_if,
  ← same,
  ← append_assoc (to_lower u) (codes ":") (h.sha256_hex p),
  has_prefix-append,
)
