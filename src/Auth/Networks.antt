-- ===== src/Auth/Networks.antt =====
-- The networks that internal/auth/auth.go makes of the lists of the users file, and the clients that
-- a store with such networks lets in.
use multi_protocol_proxy.Prelude.{
  ℕ, Bool, true, false, List, [], ◌∷◌, ◌++◌, Option, none, some, Bytes, Map, codes, ◌≡◌, ◌⊎◌, ◌↔◌,
  refl, sym, ap, ◌∙◌, subst, some_inj, append_assoc, append-nil, contains_byte, Option-cases, inl,
  inr,
}
use multi_protocol_proxy.Host.{Host, IpNet}
use multi_protocol_proxy.Auth.{
  User, UserStore, UsersConfig, parsed, parse_cidr, parse_ip, parse_cidrs, load_super_admins,
  load_maps, load_config, load_from_file, check_ip_allowed, invalidate_all_credentials,
}
use multi_protocol_proxy.Auth.Access.{InSome, check_ip_allowed_iff}

-- An entry of the file stands for a network: as it is if it has a slash, else as the network of a
-- single address, of version 6 if there is a colon in it.
abbrev pub IsNetwork : Host → Bytes → IpNet → Type 0
IsNetwork h entry net =
    ((contains_byte entry b'/' ≡ true) × (h.parse_cidr entry ≡ some net))
    ⊎ ((contains_byte entry b'/' ≡ false)
        × (((contains_byte entry b':' ≡ true) × (h.parse_cidr (entry ++ codes "/128") ≡ some net))
            ⊎ ((contains_byte entry b':' ≡ false)
                × (h.parse_cidr (entry ++ codes "/32") ≡ some net))))

-- An address as a client's connection gives it: with a colon in it, its port is cut off where there
-- is one.
abbrev pub IsAddress : Host → Bytes → Bytes → Type 0
IsAddress h address ip =
    ((contains_byte address b':' ≡ false) × (h.parse_ip address ≡ some ip))
    ⊎ ((contains_byte address b':' ≡ true)
        × (((host : Bytes) × (h.split_host_port address ≡ some host) × (h.parse_ip host ≡ some ip))
            ⊎ ((h.split_host_port address ≡ none) × (h.parse_ip address ≡ some ip))))

-- Every entry stands for the network at its place.
abbrev pub AreNetworks : Host → List Bytes → List IpNet → Type 0
AreNetworks h [] [] = Unit {0}
AreNetworks h (e ∷ es) (n ∷ ns) = IsNetwork h e n × AreNetworks h es ns
AreNetworks h _ _ = ⊥

-- Some entry stands for a network that holds the address.
abbrev pub IsListed : Host → List Bytes → Bytes → Type 0
IsListed h [] ip = ⊥
IsListed h (e ∷ es) ip =
    ((net : IpNet) × (IsNetwork h e net × (h.net_contains net ip ≡ true))) ⊎ IsListed h es ip

parse_cidr_iff :
    (h : Host) (entry : Bytes) (net : IpNet)
    → (parse_cidr h entry ≡ some net) ↔ IsNetwork h entry net
unfolding parse_cidr
parse_cidr_iff h entry net = go (contains_byte entry b'/') (contains_byte entry b':') refl refl
  where
    go :
        (slash colon : Bool)
        → contains_byte entry b'/' ≡ slash
        → contains_byte entry b':' ≡ colon
        → (parse_cidr h entry ≡ some net) ↔ IsNetwork h entry net
    go true colon e f =
        rw (e, parse_cidr) (λ p. inl (refl, p), λ n. elim n [ inl v ↦ v.1 | inr v ↦ cc (v.0) ])
    go false true e f =
        rw (e, f, parse_cidr)
          (
            λ p. inr (refl, inl (refl, p)),
            λ n. elim n [ inl v ↦ cc (v.0) | inr v ↦ elim v.1 [ inl u ↦ u.1 | inr u ↦ cc (u.0) ] ],
          )
    go false false e f =
        rw (e, f, parse_cidr)
          (
            λ p. inr (refl, inr (refl, p)),
            λ n. elim n [ inl v ↦ cc (v.0) | inr v ↦ elim v.1 [ inl u ↦ cc (u.0) | inr u ↦ u.1 ] ],
          )

parse_ip_iff :
    (h : Host) (address ip : Bytes) → (parse_ip h address ≡ some ip) ↔ IsAddress h address ip
unfolding parse_ip
parse_ip_iff h address ip = go (contains_byte address b':') (h.split_host_port address) refl refl
  where
    go :
        (colon : Bool) (o : Option Bytes)
        → contains_byte address b':' ≡ colon
        → h.split_host_port address ≡ o
        → (parse_ip h address ≡ some ip) ↔ IsAddress h address ip
    go false o e f =
        rw (e, parse_ip) (λ p. inl (refl, p), λ n. elim n [ inl v ↦ v.1 | inr v ↦ cc (v.0) ])
    go true none e f =
        rw (e, f, parse_ip)
          (
            λ p. inr (refl, inr (refl, p)),
            λ n. elim n [ inl v ↦ cc | inr v ↦ elim v.1 [ inl u ↦ cc (u.1) | inr u ↦ u.1 ] ],
          )
    go true (some host) e f =
        rw (e, f, parse_ip)
          (
            λ p. inr (refl, inl (host, refl, p)),
            λ n. elim n [
              | inl v ↦ cc (v.0)
              | inr v ↦ elim v.1 [ inl u ↦ ap h.parse_ip (some_inj u.1) ∙ u.2 | inr u ↦ cc (u.0) ]
            ],
          )

-- What the loop over a list has where it comes to the list's end.
parse_cidrs-AreNetworks :
    (h : Host) (es : List Bytes) (nets : List IpNet)
    → (parse_cidrs h es nets).1 ≡ none
    → (ns : List IpNet) × (((parse_cidrs h es nets).0 ≡ nets ++ ns) × AreNetworks h es ns)
unfolding parse_cidrs
parse_cidrs-AreNetworks h [] nets e = ([], (sym (append-nil nets), tt))
parse_cidrs-AreNetworks h (c ∷ es) nets e = elim (Option-cases (parse_cidr h c)) [
  | inl bad ↦ cc (rw (bad, parse_cidrs) at e)
  | inr (n, good) ↦
      let r = parse_cidrs-AreNetworks h es (nets ++ n ∷ []) (rw (good, parse_cidrs) at e) in
      (
        n ∷ r.0,
        (
          rw (good, parse_cidrs) (r.1.0 ∙ append_assoc nets (n ∷ []) r.0),
          ((parse_cidr_iff h c n).0 good, r.1.1),
        ),
      )
]

-- A list that is read to its end.
list-AreNetworks :
    (h : Host) (es : List Bytes)
    → (parse_cidrs h es []).1 ≡ none
    → AreNetworks h es (parse_cidrs h es []).0
list-AreNetworks h es e =
    let r = parse_cidrs-AreNetworks h es [] e in subst (AreNetworks h es) (sym r.1.0) r.1.1

abbrev pub HasNetworks : Host → UsersConfig → UserStore → Type 0
HasNetworks h cfg s =
    AreNetworks h cfg.ip_whitelist s.ip_whitelist
    × AreNetworks h cfg.super_admin_ips s.super_admin_ips

load_super_admins-HasNetworks :
    (h : Host) (s : UserStore) (ips : List Bytes)
    → (load_super_admins h s ips).1 ≡ none
    → ((load_super_admins h s ips).0.ip_whitelist ≡ s.ip_whitelist)
      × AreNetworks h ips (load_super_admins h s ips).0.super_admin_ips
unfolding load_super_admins invalidate_all_credentials
load_super_admins-HasNetworks h s ips e = elim (Option-cases (parse_cidrs h ips []).1) [
  | inl all ↦ rw (all, load_super_admins) (refl, list-AreNetworks h ips all)
  | inr (c, bad) ↦ cc (rw (bad, load_super_admins) at e)
]

-- A file that is loaded without an error has been read to the end of both of its lists of networks.
pub load-HasNetworks :
    (h : Host) (order : Map User → Map User) (s : UserStore) (cfg : UsersConfig) (now : ℕ)
    → (load_from_file h order s (parsed cfg) now).1 ≡ none
    → HasNetworks h cfg (load_from_file h order s (parsed cfg) now).0
unfolding load_from_file load_config load_maps
load-HasNetworks h order s cfg now e = elim (Option-cases (parse_cidrs h cfg.ip_whitelist []).1) [
  | inr (c, bad) ↦ cc (rw (bad, load_config) at e)
  | inl all ↦
      let (kept, admins) =
        load_super_admins-HasNetworks h (load_maps h order s cfg now) cfg.super_admin_ips
          (rw (all, load_config) at e) in
      rw (all, load_config)
        (
          subst (AreNetworks h cfg.ip_whitelist) (sym kept)
              (list-AreNetworks h cfg.ip_whitelist all),
          admins,
        )
]

nil_iff :
    (h : Host) (es : List Bytes) (ns : List IpNet) → AreNetworks h es ns → (ns ≡ []) ↔ (es ≡ [])
nil_iff h [] [] a = (λ _. refl, λ _. refl)
nil_iff h [] (n ∷ ns) a = absurd a
nil_iff h (e ∷ es) [] a = absurd a
nil_iff h (e ∷ es) (n ∷ ns) a = (λ c. cc (c), λ c. cc (c))

InSome-IsListed :
    (h : Host) (es : List Bytes) (ns : List IpNet) (ip : Bytes)
    → AreNetworks h es ns
    → InSome h ns ip ↔ IsListed h es ip
InSome-IsListed h [] [] ip a = (λ i. i, λ i. i)
InSome-IsListed h [] (n ∷ ns) ip a = absurd a
InSome-IsListed h (e ∷ es) [] ip a = absurd a
InSome-IsListed h (e ∷ es) (n ∷ ns) ip a =
    let later = InSome-IsListed h es ns ip a.1 in
    (
      λ i. elim i [ inl here ↦ inl (n, (a.0, here)) | inr there ↦ inr (later.0 there) ],
      λ i. elim i [
        | inl (net, (stands, here)) ↦
            let same : net ≡ n =
              some_inj (sym ((parse_cidr_iff h e net).1 stands) ∙ (parse_cidr_iff h e n).1 a.0) in
            inl (subst (λ n. h.net_contains n ip ≡ true) same here)
        | inr there ↦ inr (later.1 there)
      ],
    )

-- Behind a users file that is loaded without an error, a client is let in exactly if the file has no
-- whitelist, or if the client's address, its port cut off, is one that lies in the network of some
-- entry of the file's whitelist.
pub load-check_ip_allowed_iff :
    (h : Host) (order : Map User → Map User) (s : UserStore) (cfg : UsersConfig) (now : ℕ)
    (address : Bytes)
    → (load_from_file h order s (parsed cfg) now).1 ≡ none
    → (check_ip_allowed h (load_from_file h order s (parsed cfg) now).0 address ≡ true) ↔ (
        (cfg.ip_whitelist ≡ [])
        ⊎ ((ip : Bytes) × (IsAddress h address ip × IsListed h cfg.ip_whitelist ip)))
load-check_ip_allowed_iff h order s cfg now address e =
    let t = (load_from_file h order s (parsed cfg) now).0 in
    let networks = (load-HasNetworks h order s cfg now e).0 in
    let allowed = check_ip_allowed_iff h t address in
    let empty = nil_iff h cfg.ip_whitelist t.ip_whitelist networks in
    (
      λ passed. elim (allowed.0 passed) [
        | inl none_listed ↦ inl (empty.0 none_listed)
        | inr (ip, lies, i) ↦ inr (
          ip,
          (
            (parse_ip_iff h address ip).0 lies,
            (InSome-IsListed h cfg.ip_whitelist t.ip_whitelist ip networks).0 i,
          ),
        )
      ],
      λ holds. allowed.1 (elim holds [
        | inl none_listed ↦ inl (empty.1 none_listed)
        | inr (ip, (lies, i)) ↦ inr (
          ip,
          (parse_ip_iff h address ip).1 lies,
          (InSome-IsListed h cfg.ip_whitelist t.ip_whitelist ip networks).1 i,
        )
      ]),
    )
