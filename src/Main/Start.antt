-- ===== src/Main/Start.antt =====
-- cmd/proxy/main.go: what the servers of the HTTPS mode start with.
use multi_protocol_proxy.Prelude.{
  ℕ, Bool, [], Option, none, some, Bytes, Map, is_some, if◌then◌else◌, ◌≡◌, refl, ap, ◌∙◌, subst,
  some_inj, Option-cases, inl, inr,
}
use multi_protocol_proxy.Host.{Host}
use multi_protocol_proxy.Auth.{
  User, UserStore, UsersConfig, UsersFile, unreadable, unparsable, parsed, load_from_file,
  new_user_store, empty_store,
}
use multi_protocol_proxy.Auth.Loading.{last_enabled, load-last_enabled, load-cache}
use multi_protocol_proxy.Auth.Networks.{HasNetworks, load-HasNetworks}
use multi_protocol_proxy.Auth.Refinement.{Refines, empty_cache-Refines}
use multi_protocol_proxy.Config.Load.{Config, validate}
use multi_protocol_proxy.Pac.{Handler}
use multi_protocol_proxy.HttpProxy.Server.{new_pac_handler}
use multi_protocol_proxy.Tracker.{Tracker, UsageFile, Moment, new_tracker}
use multi_protocol_proxy.Main.{
  Mode, https_mode, sni_mode, mode_of, runs_https, run_sni, run_https, main,
}

-- A store that `NewUserStore` gives has read the file to its end.
new_user_store-loaded :
    (h : Host) (order : Map User → Map User) (file : UsersFile) (now : ℕ) (s : UserStore)
    → new_user_store h order file now ≡ some s
    → let r = load_from_file h order empty_store file now in (r.0 ≡ s) × (r.1 ≡ none)
unfolding new_user_store
new_user_store-loaded h order file now s e =
    elim (Option-cases (load_from_file h order empty_store file now).1) [
      | inl fine ↦ (some_inj (rw (fine, new_user_store) at e), fine)
      | inr (why, failed) ↦ cc (rw (failed, new_user_store) at e)
    ]

new_user_store-Refines :
    (h : Host) (order : Map User → Map User) (file : UsersFile) (now : ℕ) (s : UserStore)
    → new_user_store h order file now ≡ some s
    → (cfg : UsersConfig) × (file ≡ parsed cfg)
      × HasNetworks h cfg s
      × Refines h s (λ name. last_enabled name cfg.users)
unfolding load_from_file
new_user_store-Refines h order unreadable now s e =
    cc ((new_user_store-loaded h order unreadable now s e).1)
new_user_store-Refines h order unparsable now s e =
    cc ((new_user_store-loaded h order unparsable now s e).1)
new_user_store-Refines h order (parsed cfg) now s e =
    let (same, fine) = new_user_store-loaded h order (parsed cfg) now s e in
    (
      cfg,
      refl,
      subst (HasNetworks h cfg) same (load-HasNetworks h order empty_store cfg now fine),
      subst (λ t. Refines h t (λ name. last_enabled name cfg.users)) same
          (empty_cache-Refines h (load_from_file h order empty_store (parsed cfg) now).0 _
            (load-cache h order empty_store (parsed cfg) now
              ∙ ap (λ o. if is_some o then [] else []) fine)
            (load-last_enabled h order empty_store cfg now)),
    )

run_https-runs :
    (h : Host) (order : Map User → Map User) (cfg : Config) (file : UsersFile) (now : ℕ)
    (disk : Option UsageFile) (m : Moment) (s : UserStore) (t : Tracker) (p : Option Handler)
    → run_https h order cfg file now disk m ≡ runs_https s t p
    → (new_user_store h order file now ≡ some s)
      × (t ≡ new_tracker disk m)
      × (p ≡ new_pac_handler cfg.env)
unfolding run_https
run_https-runs h order cfg file now disk m s t p e =
    elim (Option-cases (new_user_store h order file now)) [
      | inl failed ↦ cc (rw (failed, run_https) at e)
      | inr (store, loaded) ↦
          let same : runs_https store (new_tracker disk m) (new_pac_handler cfg.env)
              ≡ runs_https s t p =
            rw (loaded, run_https) at e in
          (loaded ∙ cc (same), cc (same), cc (same))
    ]

run_sni-no_store :
    (exists : Bytes → Bool) (cfg : Config) (s : UserStore) (t : Tracker) (p : Option Handler)
    → ¬ (run_sni exists cfg ≡ runs_https s t p)
unfolding run_sni
run_sni-no_store exists cfg s t p e = elim (Option-cases (validate exists cfg)) [
  | inl valid ↦ cc (rw (valid, run_sni) at e)
  | inr (err, bad) ↦ cc (rw (bad, run_sni) at e)
]

-- The program runs its HTTP and SOCKS5 servers only in a mode that asks for them and with a users
-- file that it could read to the end: each entry of both lists of networks stands for a network, and
-- the store has exactly these; and they start with a store that stands for the last enabled user of
-- each name of that file up to case, with nothing in its cache that is not so.
pub main-Refines :
    (h : Host) (order : Map User → Map User) (exists : Bytes → Bool) (cfg : Config)
    (file : UsersFile) (now : ℕ) (disk : Option UsageFile) (m : Moment) (s : UserStore)
    (t : Tracker) (p : Option Handler)
    → main h order exists cfg file now disk m ≡ runs_https s t p
    → (mode_of cfg ≡ https_mode)
      × (t ≡ new_tracker disk m)
      × (p ≡ new_pac_handler cfg.env)
      × ((users : UsersConfig) × (file ≡ parsed users)
          × HasNetworks h users s
          × Refines h s (λ name. last_enabled name users.users))
unfolding main
main-Refines h order exists cfg file now disk m s t p e = go (mode_of cfg) refl
  where
    go :
        (mode : Mode)
        → mode_of cfg ≡ mode
        → (mode_of cfg ≡ https_mode)
          × (t ≡ new_tracker disk m)
          × (p ≡ new_pac_handler cfg.env)
          × ((users : UsersConfig) × (file ≡ parsed users)
              × HasNetworks h users s
              × Refines h s (λ name. last_enabled name users.users))
    go https_mode asked =
        let (made, tracked, entitled) =
          run_https-runs h order cfg file now disk m s t p (rw (asked, main) at e) in
        (asked, tracked, entitled, new_user_store-Refines h order file now s made)
    go sni_mode asked = absurd (run_sni-no_store exists cfg s t p (rw (asked, main) at e))
