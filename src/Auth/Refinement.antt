-- ===== src/Auth/Refinement.antt =====
-- The user store of internal/auth/auth.go against a store that has no cache of credentials.
use multi_protocol_proxy.Prelude.{
  ℕ, Bool, true, false, List, [], ◌∷◌, Option, none, some, Bytes, ◌≡◌, refl, sym, ap, ◌∙◌, ◌++◌,
  arith, All, Map, lookup, to_lower, is_some, if◌then◌else◌, lookup-delete_if, Bool-cases,
  Option-cases, inl, inr,
}
use multi_protocol_proxy.Host.{Host, IpNet, CollisionFree, DigestsAreHex}
use multi_protocol_proxy.Auth.{
  User, UserStore, CredCacheEntry, UsersFile, unreadable, unparsable, parsed, UsersConfig, get_user,
  parse_cidr, parse_cidrs, validate_credentials, invalidate_user, check_rate_limit, load_from_file,
  load_config, load_super_admins, verify, empty_store,
}
use multi_protocol_proxy.Auth.Cache.{
  CacheIsSound, IsChecked-same, validate-CacheIsSound, validate_sound, validate_complete,
}
use multi_protocol_proxy.Auth.Loading.{last_enabled, load-last_enabled, load-cache}

-- What a client asks of the store.
pub data Request : Type 0 where
  validates : ℕ → Bytes → Bytes → Request
  invalidates : Bytes → Request
  limits : Bytes → ℕ → Request
  loads : UsersFile → ℕ → Request

-- A file that is not loaded at all, or whose addresses all parse.
abbrev pub LoadsWhole : Host → UsersFile → Type 0
LoadsWhole h unreadable = Unit {0}
LoadsWhole h unparsable = Unit {0}
LoadsWhole h (parsed cfg) =
    All (λ c. is_some (parse_cidr h c) ≡ true) cfg.ip_whitelist
    × All (λ c. is_some (parse_cidr h c) ≡ true) cfg.super_admin_ips

abbrev pub IsWhole : Host → Request → Type 0
IsWhole h (loads file now) = LoadsWhole h file
IsWhole h _ = Unit {0}

module _ (h : Host) (order : Map User → Map User) where
  -- The answers of the program's store to the checks of credentials.
  unfoldable pub answers : UserStore → List Request → List (Option User)
  answers s [] = []
  answers s (validates now u p ∷ rs) =
      let (s', user) = validate_credentials h s now u p in user ∷ answers s' rs
  answers s (invalidates u ∷ rs) = answers (invalidate_user s u) rs
  answers s (limits u now ∷ rs) = answers (check_rate_limit s u now).0 rs
  answers s (loads file now ∷ rs) = answers (load_from_file h order s file now).0 rs

-- The store that has no cache: a user for each lower-case name.
abbrev pub Users : Type 0
Users = Bytes → Option User

abbrev pub accepted : Host → Option User → Bytes → Option User
accepted h none password = none
accepted h (some user) password =
    if h.compare_hash user.password_hash password then some user else none

abbrev pub reloaded : Users → UsersFile → Users
reloaded users unreadable = users
reloaded users unparsable = users
reloaded users (parsed cfg) = λ name. last_enabled name cfg.users

module _ (h : Host) where
  unfoldable pub expected : Users → List Request → List (Option User)
  expected users [] = []
  expected users (validates now u p ∷ rs) = accepted h (users (to_lower u)) p ∷ expected users rs
  expected users (invalidates u ∷ rs) = expected users rs
  expected users (limits u now ∷ rs) = expected users rs
  expected users (loads file now ∷ rs) = expected (reloaded users file) rs

-- The program's store stands for a store without a cache.
pub record Refines (h : Host) (s : UserStore) (users : Users) : Type 0 where
  pub sound : CacheIsSound h s
  pub same : (name : Bytes) → get_user s name ≡ users (to_lower name)

some_kept :
    (b : Bool) (o : Option CredCacheEntry) (e : CredCacheEntry)
    → (if b then none else o) ≡ some e
    → o ≡ some e
some_kept true o e h = cc (h)
some_kept false o e h = h

check_rate_limit-keeps :
    (s : UserStore) (u : Bytes) (now : ℕ)
    → ((check_rate_limit s u now).0.users ≡ s.users)
      × ((check_rate_limit s u now).0.cred_cache ≡ s.cred_cache)
unfolding check_rate_limit
check_rate_limit-keeps s u now = ground arith

validate-users :
    (h : Host) (s : UserStore) (now : ℕ) (u p : Bytes)
    → (validate_credentials h s now u p).0.users ≡ s.users
unfolding validate_credentials verify
validate-users h s now u p = ground arith

not_empty : (key : Bytes) (e : CredCacheEntry) → ¬ (lookup key [] ≡ some e)
unfolding lookup
not_empty key e h = cc (h)

-- A store with an empty cache.
pub empty_cache-Refines :
    (h : Host) (s : UserStore) (users : Users)
    → s.cred_cache ≡ []
    → ((name : Bytes) → get_user s name ≡ users (to_lower name))
    → Refines h s users
empty_cache-Refines h s users empty same = record {
  sound = λ key e found. absurd (not_empty key e (sym (ap (lookup key) empty) ∙ found));
  same = same;
}

parse_cidrs-whole :
    (h : Host) (cs : List Bytes) (nets : List IpNet)
    → All (λ c. is_some (parse_cidr h c) ≡ true) cs
    → (parse_cidrs h cs nets).1 ≡ none
unfolding parse_cidrs
parse_cidrs-whole h [] nets w = refl
parse_cidrs-whole h (c ∷ cs) nets w = elim (Option-cases (parse_cidr h c)) [
  | inl bad ↦ cc (w.0, ap is_some bad)
  | inr (n, good) ↦ rw (good, parse_cidrs) (parse_cidrs-whole h cs (nets ++ n ∷ []) w.1)
]

load-whole :
    (h : Host) (order : Map User → Map User) (s : UserStore) (cfg : UsersConfig) (now : ℕ)
    → LoadsWhole h (parsed cfg)
    → (load_config h order s cfg now).1 ≡ none
unfolding load_config load_super_admins
load-whole h order s cfg now w =
    rw
      (
        parse_cidrs-whole h cfg.ip_whitelist [] w.0,
        load_config,
        load_super_admins,
        parse_cidrs-whole h cfg.super_admin_ips [] w.1,
      )
      refl

module _ (h : Host) where
  invalidate-Refines :
      (s : UserStore) (u : Bytes) (users : Users)
      → Refines h s users
      → Refines h (invalidate_user s u) users
  unfolding invalidate_user get_user
  invalidate-Refines s u users r = record {
    sound = λ key e found.
        IsChecked-same h s (invalidate_user s u) key e.user refl
          (r.sound key e (some_kept _ _ e (rw lookup-delete_if at found)));
    same = r.same;
  }

  limits-Refines :
      (s : UserStore) (u : Bytes) (now : ℕ) (users : Users)
      → Refines h s users
      → Refines h (check_rate_limit s u now).0 users
  unfolding get_user
  limits-Refines s u now users r =
      let (names, cache) = check_rate_limit-keeps s u now in
      record {
        sound = λ key e found.
            IsChecked-same h s (check_rate_limit s u now).0 key e.user names
              (r.sound key e (sym (ap (lookup key) cache) ∙ found));
        same = λ name. ap (lookup (to_lower name)) names ∙ r.same name;
      }

  validate-Refines :
      (s : UserStore) (now : ℕ) (u p : Bytes) (users : Users)
      → Refines h s users
      → Refines h (validate_credentials h s now u p).0 users
  unfolding get_user
  validate-Refines s now u p users r = record {
    sound = validate-CacheIsSound h s now u p r.sound;
    same = λ name. ap (lookup (to_lower name)) (validate-users h s now u p) ∙ r.same name;
  }

  validate-accepted :
      (s : UserStore) (now : ℕ) (u p : Bytes)
      → CollisionFree h
      → DigestsAreHex h
      → CacheIsSound h s
      → (validate_credentials h s now u p).1 ≡ accepted h (get_user s u) p
  unfolding get_user
  validate-accepted s now u p free digits sound =
      elim (Option-cases (validate_credentials h s now u p).1) [
        | inr (user, e) ↦
            let ok = validate_sound h s now u p user free digits sound e in e ∙ rw (ok.0, ok.1) refl
        | inl e ↦ elim (Option-cases (lookup (to_lower u) s.users)) [
          | inl gone ↦ e ∙ rw gone refl
          | inr (user, listed) ↦ elim (Bool-cases (h.compare_hash user.password_hash p)) [
            | inl good ↦ cc (e, validate_complete h s now u p user free digits sound (listed, good))
            | inr bad ↦ e ∙ rw (listed, bad) refl
          ]
        ]
      ]

  loads-Refines :
      (order : Map User → Map User) (s : UserStore) (file : UsersFile) (now : ℕ) (users : Users)
      → LoadsWhole h file
      → Refines h s users
      → Refines h (load_from_file h order s file now).0 (reloaded users file)
  unfolding load_from_file
  loads-Refines order s unreadable now users w r = r
  loads-Refines order s unparsable now users w r = r
  loads-Refines order s (parsed cfg) now users w r =
      empty_cache-Refines h (load_from_file h order s (parsed cfg) now).0 _
        (load-cache h order s (parsed cfg) now ∙ rw (load-whole h order s cfg now w) refl)
        (load-last_enabled h order s cfg now)

  -- Whatever the order of checks of credentials, invalidations, rate checks and loadings of files
  -- whose address lists parse, the store with its cache answers every check of credentials as one
  -- that has no cache and only keeps, for each lower-case name, the last enabled user that the last
  -- readable file lists. Digests are in hexadecimal and do not collide.
  pub answers-expected :
      (order : Map User → Map User) (rs : List Request) (s : UserStore) (users : Users)
      → CollisionFree h
      → DigestsAreHex h
      → Refines h s users
      → All (IsWhole h) rs
      → answers h order s rs ≡ expected h users rs
  unfolding answers expected
  answers-expected order [] s users free digits r w = refl
  answers-expected order (validates now u p ∷ rs) s users free digits r w = λ i.
      (validate-accepted s now u p free digits r.sound ∙ ap (λ o. accepted h o p) (r.same u)) i
      ∷ answers-expected order rs (validate_credentials h s now u p).0 users free digits
          (validate-Refines s now u p users r) w.1 i
  answers-expected order (invalidates u ∷ rs) s users free digits r w =
      answers-expected order rs (invalidate_user s u) users free digits
        (invalidate-Refines s u users r) w.1
  answers-expected order (limits u now ∷ rs) s users free digits r w =
      answers-expected order rs (check_rate_limit s u now).0 users free digits
        (limits-Refines s u now users r) w.1
  answers-expected order (loads file now ∷ rs) s users free digits r w =
      answers-expected order rs (load_from_file h order s file now).0 (reloaded users file) free
        digits (loads-Refines order s file now users w.0 r) w.1

-- An empty store refines the store that knows nobody.
pub empty-Refines : (h : Host) → Refines h empty_store (λ name. none)
unfolding get_user lookup
empty-Refines h = empty_cache-Refines h empty_store (λ name. none) refl (λ name. refl)
