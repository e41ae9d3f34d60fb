-- ===== src/Manage/Accounts.antt =====
-- scripts/manage-users.go and internal/auth/auth.go together: what the server makes of the file that
-- the tool leaves.
use multi_protocol_proxy.Prelude.{
  ℕ, zero, suc, ◌<◌, Bool, true, false, List, [], ◌∷◌, ◌++◌, none, some, Bytes, codes, to_lower,
  str_eq, str_eq_iff, str_eq_refl, length, take, drop, get_elem?, if◌then◌else◌, lookup, Map,
  half_mod, All, ◌≡◌, ◌≢◌, refl, ap, ◌∙◌, subst, arith, some_inj,
}
use multi_protocol_proxy.Host.{Host}
use multi_protocol_proxy.Pac.{trim_space}
use multi_protocol_proxy.Auth.{
  User, UserStore, UsersConfig, parsed, load_from_file, empty_store, get_user, validate_credentials,
  verify, fresh_entry, cache_key,
}
use multi_protocol_proxy.Auth.Cache.{Accepts}
use multi_protocol_proxy.Auth.Loading.{last_enabled, load-last_enabled, load-cache}
use multi_protocol_proxy.Manage.{
  Tools, Lines, prompt, exists, ask_user, add_user, select, remove_user,
}

-- The names in lower case, in the order of the file.
abbrev names : List User → List Bytes
names [] = []
names (u ∷ us) = to_lower u.username ∷ names us

-- No two of them are the same.
abbrev AreDistinct : List Bytes → Type 0
AreDistinct [] = Unit {0}
AreDistinct (n ∷ ns) = All (λ m. m ≢ n) ns × AreDistinct ns

last_enabled-absent :
    (k : Bytes) (us : List User) → All (λ m. m ≢ k) (names us) → last_enabled k us ≡ none
last_enabled-absent k [] h = refl
last_enabled-absent k (u ∷ us) h =
    ground (arith, last_enabled-absent k us h.1, h.0, str_eq_iff (to_lower u.username) k)

last_enabled-append :
    (us : List User) (u : User)
    → u.enabled ≡ true
    → last_enabled (to_lower u.username) (us ++ u ∷ []) ≡ some u
last_enabled-append [] u e = rw (e, str_eq_refl (to_lower u.username)) refl
last_enabled-append (v ∷ us) u e = rw (last_enabled-append us u e) refl

All-at :
    (P : Bytes → Type 0) (i : ℕ) (us : List User) (u : User)
    → All P (names us)
    → get_elem? us i ≡ some u
    → P (to_lower u.username)
All-at P i [] u h e = cc (e)
All-at P zero (v ∷ us) u h e = subst (λ (w : User). P (to_lower w.username)) (some_inj e) h.0
All-at P (suc i) (v ∷ us) u h e = All-at P i us u h.1 e

-- A user that none of the others shares its name with does not hide them.
last_enabled-skip :
    (v : User) (us : List User) (k : Bytes)
    → k ≢ to_lower v.username
    → last_enabled k (v ∷ us) ≡ last_enabled k us
last_enabled-skip v us k other = ground (arith, str_eq_iff (to_lower v.username) k)

last_enabled-at :
    (i : ℕ) (us : List User) (u : User)
    → AreDistinct (names us)
    → get_elem? us i ≡ some u
    → last_enabled (to_lower u.username) us ≡ (if u.enabled then some u else none)
last_enabled-at i [] u d e = cc (e)
last_enabled-at zero (v ∷ us) u d e =
    subst
      (λ (w : User).
        last_enabled (to_lower w.username) (v ∷ us) ≡ (if w.enabled then some w else none))
      (some_inj e)
      (ground (
        arith,
        last_enabled-absent (to_lower v.username) us d.0,
        str_eq_refl (to_lower v.username),
      ))
last_enabled-at (suc i) (v ∷ us) u d e =
    last_enabled-skip v us (to_lower u.username)
      (All-at (λ m. m ≢ to_lower v.username) i us u d.0 e)
    ∙ last_enabled-at i us u d.1 e

last_enabled-without :
    (i : ℕ) (us : List User) (u : User)
    → AreDistinct (names us)
    → get_elem? us i ≡ some u
    → last_enabled (to_lower u.username) (take i us ++ drop (suc i) us) ≡ none
last_enabled-without i [] u d e = cc (e)
last_enabled-without zero (v ∷ us) u d e =
    subst (λ (w : User). last_enabled (to_lower w.username) us ≡ none) (some_inj e)
      (last_enabled-absent (to_lower v.username) us d.0)
last_enabled-without (suc i) (v ∷ us) u d e =
    last_enabled-skip v (take i us ++ drop (suc i) us) (to_lower u.username)
      (All-at (λ m. m ≢ to_lower v.username) i us u d.0 e)
    ∙ last_enabled-without i us u d.1 e

verify-Accepts :
    (h : Host) (s : UserStore) (now : ℕ) (u p key : Bytes) (user : User)
    → Accepts h s u p user
    → (verify h s now u p key).1 ≡ some user
unfolding verify
verify-Accepts h s now u p key user a = rw (a.0, verify, a.1) refl

validate-no_cache :
    (h : Host) (s : UserStore) (now : ℕ) (u p : Bytes) (user : User)
    → s.cred_cache ≡ []
    → Accepts h s u p user
    → (validate_credentials h s now u p).1 ≡ some user
unfolding validate_credentials verify fresh_entry lookup
validate-no_cache h s now u p user e a =
    rw (miss, validate_credentials) (verify-Accepts h s now u p (cache_key h u p) user a)
  where
    miss : lookup (cache_key h u p) s.cred_cache ≡ none
    miss = ap (lookup (cache_key h u p)) e

empty_cache : (b : Bool) → (if b then empty_store.cred_cache else []) ≡ []
empty_cache true = refl
empty_cache false = refl

-- If no two users of a file share a name up to case, then the server that loads it knows the
-- user at each place of the file, under any case of the name, exactly if it is enabled.
pub load-managed :
    (h : Host) (order : Map User → Map User) (s : UserStore) (cfg : UsersConfig) (now i : ℕ)
    (u : User) (name : Bytes)
    → AreDistinct (names cfg.users)
    → get_elem? cfg.users i ≡ some u
    → to_lower name ≡ to_lower u.username
    → get_user (load_from_file h order s (parsed cfg) now).0 name
      ≡ (if u.enabled then some u else none)
load-managed h order s cfg now i u name d at same =
    load-last_enabled h order s cfg now name
    ∙ ap (λ k. last_enabled k cfg.users) same
    ∙ last_enabled-at i cfg.users u d at

-- What `addUser` does when it asks for everything and the name is free.
add_user-new :
    (t : Tools) (cfg : UsersConfig) (name password hash : Bytes) (ls : Lines)
    → str_eq (trim_space name) [] ≡ false
    → exists t.equal_fold (trim_space name) cfg.users ≡ false
    → str_eq (trim_space password) [] ≡ false
    → t.generate_hash (trim_space password) ≡ some hash
    → (add_user t cfg (name ∷ password ∷ ls)).0.users
      ≡ cfg.users ++ (ask_user t (trim_space name) hash ls).0 ∷ []
unfolding add_user prompt
add_user-new t cfg name password hash ls given free typed hashed =
    rw (given, free, typed, hashed, add_user) refl

-- When the tool adds a user, and the server then starts with that file, the server accepts the name,
-- in any case, with the password that was typed: name and password are not empty, the name is free up
-- to case, and bcrypt makes a hash that it accepts the password for. White space around them is cut.
pub add_user-validates :
    (t : Tools) (h : Host) (order : Map User → Map User) (cfg : UsersConfig)
    (name password hash typed_name : Bytes) (ls : Lines) (loaded now : ℕ)
    → str_eq (trim_space name) [] ≡ false
    → exists t.equal_fold (trim_space name) cfg.users ≡ false
    → str_eq (trim_space password) [] ≡ false
    → t.generate_hash (trim_space password) ≡ some hash
    → h.compare_hash hash (trim_space password) ≡ true
    → to_lower typed_name ≡ to_lower (trim_space name)
    → let cfg' = (add_user t cfg (name ∷ password ∷ ls)).0 in
      let s = (load_from_file h order empty_store (parsed cfg') loaded).0 in
      (validate_credentials h s now typed_name (trim_space password)).1
      ≡ some (ask_user t (trim_space name) hash ls).0
unfolding get_user ask_user
add_user-validates t h order cfg name password hash typed_name ls loaded now given free typed hashed
      good same =
    let cfg' = (add_user t cfg (name ∷ password ∷ ls)).0 in
    let user = (ask_user t (trim_space name) hash ls).0 in
    validate-no_cache h (load_from_file h order empty_store (parsed cfg') loaded).0 now typed_name
      (trim_space password) user
      (load-cache h order empty_store (parsed cfg') loaded ∙ empty_cache _)
      (
        load-last_enabled h order empty_store cfg' loaded typed_name
            ∙ ap (λ k. last_enabled k cfg'.users) same
            ∙ ap (last_enabled (to_lower (trim_space name)))
                (add_user-new t cfg name password hash ls given free typed hashed)
            ∙ last_enabled-append cfg.users user refl,
        good,
      )

select-at :
    (t : Tools) (cfg : UsersConfig) (line : Bytes) (ls : Lines) (i : ℕ)
    → t.atoi (trim_space line) ≡ (suc i, true)
    → str_eq (trim_space line) (codes "cancel") ≡ false
    → i < length cfg.users
    → length cfg.users < half_mod
    → select t cfg (line ∷ ls) ≡ (some i, ls)
unfolding select prompt
select-at t cfg line ls i number no_cancel h w = rw (no_cancel, number, select) (ground arith)

get_elem?-lt : (us : List User) (i : ℕ) (u : User) → get_elem? us i ≡ some u → i < length us
get_elem?-lt [] i u e = cc (e)
get_elem?-lt (v ∷ us) zero u e = omega arith
get_elem?-lt (v ∷ us) (suc i) u e = omega (arith, get_elem?-lt us i u e)

-- When the tool removes a user by its number, the server that loads the file then knows nobody of
-- that name up to case, if the names of the file were distinct up to case.
pub remove_user-unknown :
    (t : Tools) (h : Host) (order : Map User → Map User) (s : UserStore) (cfg : UsersConfig)
    (line name : Bytes) (ls : Lines) (i now : ℕ) (u : User)
    → AreDistinct (names cfg.users)
    → get_elem? cfg.users i ≡ some u
    → length cfg.users < half_mod
    → t.atoi (trim_space line) ≡ (suc i, true)
    → str_eq (trim_space line) (codes "cancel") ≡ false
    → to_lower name ≡ to_lower u.username
    → let cfg' = (remove_user t cfg (line ∷ ls)).0 in
      get_user (load_from_file h order s (parsed cfg') now).0 name ≡ none
unfolding remove_user
remove_user-unknown t h order s cfg line name ls i now u d at w number no_cancel same =
    load-last_enabled h order s (remove_user t cfg (line ∷ ls)).0 now name
    ∙ ap (λ k. last_enabled k (remove_user t cfg (line ∷ ls)).0.users) same
    ∙ ap (last_enabled (to_lower u.username)) removed
    ∙ last_enabled-without i cfg.users u d at
  where
    removed : (remove_user t cfg (line ∷ ls)).0.users ≡ take i cfg.users ++ drop (suc i) cfg.users
    removed =
        rw
          (
            select-at t cfg line ls i number no_cancel (get_elem?-lt cfg.users i u at) w,
            remove_user,
          )
          refl
