-- ===== src/Manage/Distinct.antt =====
-- The names of the users, and what the edits of scripts/manage-users.go do to them.
use multi_protocol_proxy.Prelude.{
  ℕ, zero, suc, Bool, false, List, [], ◌∷◌, ◌++◌, Bytes, str_eq, take, drop, All, ◌≡◌, refl, ap,
  ◌∙◌, arith, Bool-cases, inl, inr,
}
use multi_protocol_proxy.Auth.{User, UsersConfig, UsersFile}
use multi_protocol_proxy.Manage.{
  Tools, Lines, exists, Change, changes, prompt_default, set_user, changed, change_password,
  change_expiry, ask_changes, load_config,
}

-- The names in the order of the file.
abbrev pub names : List User → List Bytes
names [] = []
names (u ∷ us) = u.username ∷ names us

-- No name and a later one are equal for `strings.EqualFold`.
abbrev pub AreDistinct : (Bytes → Bytes → Bool) → List Bytes → Type 0
AreDistinct equal_fold [] = Unit {0}
AreDistinct equal_fold (n ∷ ns) = All (λ m. equal_fold n m ≡ false) ns × AreDistinct equal_fold ns

-- No two users of the file have names that are equal for it.
abbrev pub HasDistinct : Tools → UsersFile → Type 0
HasDistinct t file = AreDistinct t.equal_fold (names (load_config file).users)

pub exists-All :
    (equal_fold : Bytes → Bytes → Bool) (name : Bytes) (us : List User)
    → exists equal_fold name us ≡ false
    → All (λ m. equal_fold m name ≡ false) (names us)
unfolding exists
exists-All equal_fold name [] e = tt
exists-All equal_fold name (u ∷ us) e =
    (ground (arith, e), exists-All equal_fold name us (ground (arith, e)))

module _ {ℓ κ} {A : Type ℓ} (P : A → Type κ) where
  All-append : (xs : List A) (y : A) → All P xs → P y → All P (xs ++ y ∷ [])
  All-append [] y h p = (p, tt)
  All-append (x ∷ xs) y h p = (h.0, All-append xs y h.1 p)

  All-without : (i : ℕ) (xs : List A) → All P xs → All P (take i xs ++ drop (suc i) xs)
  All-without zero [] h = tt
  All-without zero (x ∷ xs) h = h.1
  All-without (suc i) [] h = tt
  All-without (suc i) (x ∷ xs) h = (h.0, All-without i xs h.1)

module _ (equal_fold : Bytes → Bytes → Bool) where
  pub AreDistinct-append :
      (ns : List Bytes) (n : Bytes)
      → AreDistinct equal_fold ns
      → All (λ m. equal_fold m n ≡ false) ns
      → AreDistinct equal_fold (ns ++ n ∷ [])
  AreDistinct-append [] n d h = (tt, tt)
  AreDistinct-append (m ∷ ns) n d h =
      (All-append (λ k. equal_fold m k ≡ false) ns n d.0 h.0, AreDistinct-append ns n d.1 h.1)

  pub AreDistinct-without :
      (i : ℕ) (ns : List Bytes)
      → AreDistinct equal_fold ns
      → AreDistinct equal_fold (take i ns ++ drop (suc i) ns)
  AreDistinct-without zero [] d = tt
  AreDistinct-without zero (n ∷ ns) d = d.1
  AreDistinct-without (suc i) [] d = tt
  AreDistinct-without (suc i) (n ∷ ns) d =
      (All-without (λ k. equal_fold n k ≡ false) i ns d.0, AreDistinct-without i ns d.1)

pub names-append : (us : List User) (u : User) → names (us ++ u ∷ []) ≡ names us ++ u.username ∷ []
names-append [] u = refl
names-append (v ∷ us) u = ap (◌∷◌ v.username) (names-append us u)

pub names-without :
    (i : ℕ) (us : List User)
    → names (take i us ++ drop (suc i) us) ≡ take i (names us) ++ drop (suc i) (names us)
names-without zero [] = refl
names-without zero (u ∷ us) = refl
names-without (suc i) [] = refl
names-without (suc i) (u ∷ us) = ap (◌∷◌ u.username) (names-without i us)

-- A change that leaves the name alone.
abbrev pub KeepsName : (User → User) → Type 0
KeepsName f = (u : User) → (f u).username ≡ u.username

pub names-set_user :
    (f : User → User) (i : ℕ) (us : List User) → KeepsName f → names (set_user f i us) ≡ names us
unfolding set_user
names-set_user f i [] k = refl
names-set_user f zero (u ∷ us) k = ap (λ n. n ∷ names us) (k u)
names-set_user f (suc i) (u ∷ us) k = ap (◌∷◌ u.username) (names-set_user f i us k)

changed-KeepsName :
    (v : Bytes) (f : Bytes → User → User) → KeepsName (f v) → KeepsName (changed v f)
unfolding changed
changed-KeepsName v f k u = elim (Bool-cases (str_eq v [])) [
  | inl kept ↦ rw kept refl
  | inr typed ↦ rw typed (k u)
]

change_password-KeepsName : (t : Tools) (v : Bytes) → KeepsName (change_password t v)
unfolding change_password
change_password-KeepsName t v u = ground arith

change_expiry-KeepsName : (t : Tools) (v : Bytes) → KeepsName (change_expiry t v)
unfolding change_expiry
change_expiry-KeepsName t v u = ground arith

pub ask_changes-KeepsName :
    (fs : List Change) (ls : Lines)
    → All (λ (f : Change). (v : Bytes) → KeepsName (f v)) fs
    → KeepsName (ask_changes fs ls).0
unfolding ask_changes
ask_changes-KeepsName [] ls k u = refl
ask_changes-KeepsName (f ∷ fs) ls k u =
    let v = (prompt_default [] ls).0 in
    ask_changes-KeepsName fs _ k.1 (changed v f u) ∙ changed-KeepsName v f (k.0 v) u

pub changes-KeepsName :
    (t : Tools) → All (λ (f : Change). (v : Bytes) → KeepsName (f v)) (changes t)
unfolding changes
changes-KeepsName t = (
  λ v u. refl,
  (
    λ v u. refl,
    (
      λ v u. refl,
      (λ v u. refl, (λ v u. refl, (change_password-KeepsName t, (change_expiry-KeepsName t, tt)))),
    ),
  ),
)

-- What each command does to a list of distinct names.
abbrev pub Keeps : (Tools → UsersConfig → Lines → UsersConfig × Lines) → Type 0
Keeps command =
    (t : Tools) (cfg : UsersConfig) (ls : Lines)
    → AreDistinct t.equal_fold (names cfg.users)
    → AreDistinct t.equal_fold (names (command t cfg ls).0.users)
