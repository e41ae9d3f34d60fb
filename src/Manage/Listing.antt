-- ===== src/Manage/Listing.antt =====
-- scripts/manage-users.go: what `listUsers`, `generateHash` and the commands print. A limit is a 64-bit
-- pattern. Texts are bytes, with the symbols beyond ASCII in UTF-8.
use multi_protocol_proxy.Prelude.{
  ℕ, zero, suc, ◌+◌, ◌-◌, ◌<◌, true, false, List, [], ◌∷◌, ◌++◌, Option, none, some, Bytes, codes,
  str_eq, slt, ltb, ◌==◌, positive, length, get_elem?, some_inj, half_mod, if◌then◌else◌, ◌≡◌, ap,
  ◌∙◌, arith,
}
use multi_protocol_proxy.Decimal.{itoa}
use multi_protocol_proxy.Decimal.Digits.{trim_space-itoa, itoa-ne-cancel}
use multi_protocol_proxy.Host.{Host}
use multi_protocol_proxy.Auth.{User, UsersConfig}
use multi_protocol_proxy.Manage.{Tools, Lines, prompt, select}

-- "✅", "❌", "∞" and two of "─".
abbrev check_mark : Bytes
check_mark = 226 ∷ 156 ∷ 133 ∷ []

abbrev cross_mark : Bytes
cross_mark = 226 ∷ 157 ∷ 140 ∷ []

abbrev infinity : Bytes
infinity = 226 ∷ 136 ∷ 158 ∷ []

-- What is printed of a positive number, with what is around it.
unfoldable pub if_positive : ℕ → Bytes → Bytes → Bytes → Bytes
if_positive n before behind other = if positive n then before ++ (itoa n ++ behind) else other

-- The part of the line on the expiry. `day` is `t.Format("2006-01-02")`.
unfoldable pub expiry : Host → (ℕ → Bytes) → ℕ → Bytes → Bytes
expiry h day now expires_at =
    if str_eq expires_at [] then [] else elim (h.parse_rfc3339 expires_at) [
      | none ↦ []
      | some t ↦ if ltb t now then codes " EXPIRED" else codes " expires=" ++ day t
    ]

-- The line of a user behind its number.
unfoldable pub user_line : Host → (ℕ → Bytes) → ℕ → User → Bytes
unfolding if_positive expiry
user_line h day now u =
    (if u.enabled then check_mark else cross_mark)
    ++ (codes " "
        ++ (u.username
            ++ (codes " ["
                ++ (u.role
                    ++ (codes "] plan="
                        ++ (u.plan
                            ++ (if_positive u.bandwidth_limit_gb (codes " bw=") (codes "GB")
                                  (codes " bw=" ++ infinity)
                                ++ (if_positive u.bandwidth_speed_mbps (codes " speed=")
                                      (codes "Mbps") []
                                    ++ (if_positive u.max_connections (codes " conns=") [] []
                                        ++ expiry h day now u.expires_at)))))))))

abbrev numbered : ℕ → Bytes → Bytes
numbered n line = codes "  " ++ (itoa n ++ (codes ") " ++ line))

-- The loop over the users, from the number `n` on.
unfoldable pub user_lines : Host → (ℕ → Bytes) → ℕ → ℕ → List User → List Bytes
unfolding user_line
user_lines h day now n [] = []
user_lines h day now n (u ∷ us) =
    numbered n (user_line h day now u) ∷ user_lines h day now (n + 1) us

-- The lines that `listUsers` prints behind its heading.
unfoldable pub list_users : Host → (ℕ → Bytes) → ℕ → UsersConfig → List Bytes
unfolding user_lines
list_users h day now cfg =
    if length cfg.users == 0
    then codes "  No users configured." ∷ []
    else user_lines h day now 1 cfg.users

-- `generateHash`: the hash that it prints, and what is left to read.
unfoldable pub generate_hash : Tools → Lines → Option Bytes × Lines
unfolding prompt
generate_hash t ls =
    let (password, ls') = prompt ls in
    ((if str_eq password [] then none else t.generate_hash password), ls')

-- What `toggleUser` prints of the user that it has changed.
unfoldable pub toggled_line : User → Bytes
toggled_line u =
    check_mark
    ++ (codes " User '"
        ++ (u.username
            ++ (codes "' is now " ++ (if u.enabled then codes "enabled" else codes "disabled"))))

-- The lines that `addUser` prints of the limits of a new user. `bw` and `speed` are its answers.
unfoldable pub limit_lines : User → Bytes → Bytes → List Bytes
limit_lines u bw speed =
    (if positive u.bandwidth_limit_gb
      then codes "   Bandwidth: " ++ (bw ++ codes " GB/month")
      else codes "   Bandwidth: Unlimited")
    ∷ (if positive u.bandwidth_speed_mbps
        then codes "   Speed: " ++ (speed ++ codes " Mbps")
        else codes "   Speed: Unlimited")
    ∷ []

user_lines-at :
    (h : Host) (day : ℕ → Bytes) (now n : ℕ) (us : List User) (i : ℕ) (u : User)
    → get_elem? us i ≡ some u
    → get_elem? (user_lines h day now n us) i ≡ some (numbered (n + i) (user_line h day now u))
unfolding user_lines
user_lines-at h day now n [] i u e = cc (e)
user_lines-at h day now n (v ∷ us) zero u e =
    let same : v ≡ u = some_inj e in
    let first : n ≡ n + 0 = omega arith in
    ap (λ w. some (numbered n (user_line h day now w))) same
    ∙ ap (λ k. some (numbered k (user_line h day now u))) first
user_lines-at h day now n (v ∷ us) (suc i) u e =
    let next : n + 1 + i ≡ n + suc i = omega arith in
    user_lines-at h day now (n + 1) us i u e
    ∙ ap (λ k. some (numbered k (user_line h day now u))) next

list_users-at :
    (h : Host) (day : ℕ → Bytes) (now : ℕ) (cfg : UsersConfig) (i : ℕ) (u : User)
    → get_elem? cfg.users i ≡ some u
    → get_elem? (list_users h day now cfg) i ≡ some (numbered (1 + i) (user_line h day now u))
unfolding list_users
list_users-at h day now cfg i u e = go cfg.users e
  where
    go :
        (us : List User)
        → get_elem? us i ≡ some u
        → get_elem?
            (if length us == 0
              then codes "  No users configured." ∷ []
              else user_lines h day now 1 us)
            i
          ≡ some (numbered (1 + i) (user_line h day now u))
    go [] e = cc (e)
    go (v ∷ us) e =
        let filled : (length (v ∷ us) == 0) ≡ false = ground arith in
        rw filled (user_lines-at h day now 1 (v ∷ us) i u e)

inside {ℓ} : {A : Type ℓ} (xs : List A) (i : ℕ) (a : A) → get_elem? xs i ≡ some a → i < length xs
inside [] i a e = cc (e)
inside (x ∷ xs) zero a e = omega arith
inside (x ∷ xs) (suc i) a e = omega (arith, inside xs i a e)

-- The number that the list shows before a user is the one that selects the user: typed behind the
-- list, it makes the command that asks for a number take exactly that user.
pub list_users-select :
    (h : Host) (day : ℕ → Bytes) (now : ℕ) (t : Tools) (cfg : UsersConfig) (i : ℕ) (u : User)
    (ls : Lines)
    → ((n : ℕ) → n < half_mod → t.atoi (itoa n) ≡ (n, true))
    → length cfg.users < half_mod
    → get_elem? cfg.users i ≡ some u
    → (get_elem? (list_users h day now cfg) i ≡ some (numbered (1 + i) (user_line h day now u)))
      × (select t cfg (itoa (1 + i) ∷ ls) ≡ (some i, ls))
unfolding select prompt
list_users-select h day now t cfg i u ls parses few there =
    let n = 1 + i in
    let within = inside cfg.users i u there in
    let small : n < half_mod = omega (arith, within, few) in
    let some_users : (length cfg.users == 0) ≡ false = ground (arith, within) in
    let low : slt n 1 ≡ false = ground (arith, small) in
    let high : slt (length cfg.users) n ≡ false = ground (arith, within, few) in
    (
      list_users-at h day now cfg i u there,
      rw (trim_space-itoa n, parses n small, itoa-ne-cancel n small, some_users, low, high)
          (let back : 1 + i - 1 ≡ i = omega arith in ap (λ k. (some k, ls)) back),
    )
