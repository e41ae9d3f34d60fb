-- ===== src/Config/Valid.antt =====
-- What `Validate` of internal/config/config.go accepts.
use multi_protocol_proxy.Prelude.{
  Bool, true, false, not, ◌&&◌, List, [], ◌∷◌, none, Bytes, ◌≡◌, ◌↔◌, refl, arith, str_eq, positive,
}
use multi_protocol_proxy.Config.Load.{Config, check, is_empty, errors_of, joined, validate}

abbrev no_errors : List Bytes → Bool
no_errors [] = true
no_errors (e ∷ es) = false

check-no_errors :
    (b : Bool) (text : Bytes) (errs : List Bytes)
    → no_errors (check b text errs) ≡ (not b && no_errors errs)
check-no_errors true text [] = refl
check-no_errors true text (e ∷ es) = refl
check-no_errors false text errs = refl

joined_iff : (errs : List Bytes) → (joined errs ≡ none) ↔ (no_errors errs ≡ true)
joined_iff [] = (λ _. refl, λ _. refl)
joined_iff (e ∷ es) = (λ h. cc, λ h. cc)

all_pass :
    (listen cert key timeout conns hosts n : Bool)
    → n ≡ (
        not hosts
        && (not (not conns)
            && (not (not timeout) && (not (not key) && (not (not cert) && (not listen && true))))))
    → (n ≡ true) ↔ (
        (listen ≡ false)
        × ((cert ≡ true)
            × ((key ≡ true) × ((timeout ≡ true) × ((conns ≡ true) × (hosts ≡ false))))))
all_pass listen cert key timeout conns hosts n e = (λ h. ground arith, λ h. ground arith)

-- `Validate` finds no error exactly for a configuration with a listen address, both files, a
-- positive timeout, a positive capacity and a host.
pub validate_iff :
    (exists : Bytes → Bool) (c : Config)
    → (validate exists c ≡ none) ↔ (
        (str_eq c.listen [] ≡ false)
        × ((exists c.cert_file ≡ true)
            × ((exists c.key_file ≡ true)
                × ((positive c.timeout_sec ≡ true)
                    × ((positive c.max_conns ≡ true) × (is_empty c.hosts ≡ false))))))
unfolding validate errors_of
validate_iff exists c =
    let errs = joined_iff (errors_of exists c) in
    let counted : no_errors (errors_of exists c) ≡ (
        not (is_empty c.hosts)
        && (not (not (positive c.max_conns))
            && (not (not (positive c.timeout_sec))
                && (not (not (exists c.key_file))
                    && (not (not (exists c.cert_file)) && (not (str_eq c.listen []) && true)))))) =
      simp (check-no_errors) in
    let pass =
      all_pass (str_eq c.listen []) (exists c.cert_file) (exists c.key_file)
        (positive c.timeout_sec) (positive c.max_conns) (is_empty c.hosts)
        (no_errors (errors_of exists c)) counted in
    (λ accepted. pass.0 (errs.0 accepted), λ holds. errs.1 (pass.1 holds))
