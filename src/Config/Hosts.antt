-- ===== src/Config/Hosts.antt =====
-- The names of the hosts that internal/config/config.go loads.
use multi_protocol_proxy.Prelude.{
  true, false, [], ◌∷◌, some, Bytes, ◌≡◌, ◌⊎◌, inl, inr, refl, ap, ◌∙◌, codes, str_eq, str_eq_iff,
  str_eq_refl, to_lower, Map, lookup, insert, lookup-insert, lookup-insert_cases, Bool-cases,
}
use multi_protocol_proxy.Config.Env.{
  Getenv, development, production, get_env_or_default, with_ports, production_env, development_env,
  load_env, is_development, is_production,
}
use multi_protocol_proxy.Config.Load.{clean_name, clean_hosts}

-- `name` comes from an entry of `hosts` with the target `v`.
abbrev pub Comes : Map Bytes → Bytes → Bytes → Type 0
Comes [] name v = ⊥
Comes ((k, t) ∷ hosts) name v = ((clean_name k ≡ name) × (t ≡ v)) ⊎ Comes hosts name v

clean_hosts-Comes :
    (hosts cleaned : Map Bytes) (name v : Bytes)
    → lookup name (clean_hosts hosts cleaned) ≡ some v
    → Comes hosts name v ⊎ (lookup name cleaned ≡ some v)
unfolding clean_hosts
clean_hosts-Comes [] cleaned name v found = inr found
clean_hosts-Comes ((k, t) ∷ hosts) cleaned name v found =
    elim (clean_hosts-Comes hosts (insert (clean_name k) t cleaned) name v found) [
      | inl later ↦ inl (inr later)
      | inr here ↦ elim (lookup-insert_cases (clean_name k) name t v cleaned here) [
        | inl own ↦ inl (inl own)
        | inr before ↦ inr before
      ]
    ]

-- A name that the loaded table sends to a target is the trimmed, lower-case form of a name that the
-- file sends to that target.
pub cleaned-Comes :
    (hosts : Map Bytes) (name v : Bytes)
    → lookup name (clean_hosts hosts []) ≡ some v
    → Comes hosts name v
unfolding lookup
cleaned-Comes hosts name v found = elim (clean_hosts-Comes hosts [] name v found) [
  | inl comes ↦ comes
  | inr empty ↦ cc (empty)
]

clean_hosts-known :
    (hosts cleaned : Map Bytes) (name v : Bytes)
    → (Comes hosts name v) ⊎ (lookup name cleaned ≡ some v)
    → (t : Bytes) × (lookup name (clean_hosts hosts cleaned) ≡ some t)
unfolding clean_hosts
clean_hosts-known [] cleaned name v (inl none_there) = elim none_there [ ]
clean_hosts-known [] cleaned name v (inr known) = (v, known)
clean_hosts-known ((k, t) ∷ hosts) cleaned name v (inl (inr later)) =
    clean_hosts-known hosts (insert (clean_name k) t cleaned) name v (inl later)
clean_hosts-known ((k, t) ∷ hosts) cleaned name v (inl (inl (e, f))) =
    clean_hosts-known hosts (insert (clean_name k) t cleaned) name v (
      inr (
        lookup-insert (clean_name k) name t cleaned
        ∙ rw ((str_eq_iff (clean_name k) name).1 e) (ap some f)))
clean_hosts-known ((k, t) ∷ hosts) cleaned name v (inr known) =
    elim (Bool-cases (str_eq (clean_name k) name)) [
      | inl same ↦
          clean_hosts-known hosts (insert (clean_name k) t cleaned) name t
            (inr (lookup-insert (clean_name k) name t cleaned ∙ rw same refl))
      | inr other ↦
          clean_hosts-known hosts (insert (clean_name k) t cleaned) name v
            (inr (lookup-insert (clean_name k) name t cleaned ∙ rw other known))
    ]

-- Every name of the file is found in the loaded table under its trimmed, lower-case form.
pub cleaned_known :
    (hosts : Map Bytes) (name v : Bytes)
    → Comes hosts name v
    → (t : Bytes) × (lookup name (clean_hosts hosts []) ≡ some t)
cleaned_known hosts name v comes = clean_hosts-known hosts [] name v (inl comes)

-- The environment that is loaded is production with ngrok disabled, or development with every
-- origin allowed; no spelling of APP_ENV gives anything else.
pub load_env-modes :
    (getenv : Getenv)
    → ((is_production (load_env getenv) ≡ true) × ((load_env getenv).ngrok_enabled ≡ false))
      ⊎ ((is_development (load_env getenv) ≡ true) × ((load_env getenv).allowed_origin ≡ codes "*"))
unfolding load_env with_ports production_env development_env is_production is_development
load_env-modes getenv =
    let env = to_lower (get_env_or_default getenv (codes "APP_ENV") (codes "development")) in
    elim (Bool-cases (str_eq env production)) [
      | inl e ↦ inl (rw (e, load_env) e, rw (e, load_env) refl)
      | inr e ↦ inr (rw (e, load_env) (str_eq_refl development), rw (e, load_env) refl)
    ]
