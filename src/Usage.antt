-- ===== src/Usage.antt =====
-- internal/bandwidth/api.go: the usage of all users for the dashboard. The JSON text is left out, and
-- a total in GB, a floating-point number there, is the total in bytes here, over 2^30.
use mathlib.Core.Option
use multi_protocol_proxy.Prelude.{
  ℕ, List, [], ◌∷◌, Option, none, some, Bytes, codes, Map, lookup, map_values, lookup-map_values,
  str_eq, if◌then◌else◌, ◌≡◌, ap, sym, ◌∙◌, Bool-cases, inl, inr, some_inj,
}
use multi_protocol_proxy.Tracker.{UserUsage, Tracker, get_month, get_all_usage}

pub record UsageEntry : Type 0 where
  pub bytes_up : ℕ
  pub bytes_down : ℕ
  pub total_over_gb : ℕ
  pub limit_gb : ℕ
  pub percent_used : ℕ
  pub active_conns : ℕ

pub record UsageResponse : Type 0 where
  pub month : Bytes
  pub users : Map UsageEntry

abbrev pub entry : UserUsage → UsageEntry
entry usage = record {
  bytes_up = usage.bytes_up;
  bytes_down = usage.bytes_down;
  total_over_gb = usage.total_bytes;
  limit_gb = 0;
  percent_used = 0;
  active_conns = usage.active_conns;
}

-- What the handler writes: the headers that it sets, in their order, and the body of an answer that
-- has one. `WriteHeader(200)` is all that a preflight request gets.
pub record Answer : Type 0 where
  pub headers : List (Bytes × Bytes)
  pub body : Option UsageResponse

unfoldable pub usage_handler : Tracker → Bytes → Bytes → Answer
unfolding get_all_usage get_month
usage_handler t allowed_origin method = record {
  headers =
      (codes "Access-Control-Allow-Origin", allowed_origin)
      ∷ (codes "Access-Control-Allow-Methods", codes "GET, OPTIONS")
      ∷ (codes "Access-Control-Allow-Headers", codes "Content-Type")
      ∷ (codes "Content-Type", codes "application/json")
      ∷ [];
  body =
      if str_eq method (codes "OPTIONS")
      then none
      else some (record { month = get_month t; users = map_values entry (get_all_usage t) });
}

-- An answer that is not to a preflight request has exactly the users that the tracker has, with
-- their counts, under the tracker's month.
pub usage_handler-lookup :
    (t : Tracker) (origin method name : Bytes) (r : UsageResponse)
    → (usage_handler t origin method).body ≡ some r
    → (lookup name r.users ≡ Option.map entry (lookup name t.users)) × (r.month ≡ t.month)
unfolding usage_handler get_all_usage get_month
usage_handler-lookup t origin method name r e =
    elim (Bool-cases (str_eq method (codes "OPTIONS"))) [
      | inl preflight ↦ cc (rw (preflight, usage_handler) at e)
      | inr other ↦
          let same = some_inj (rw (other, usage_handler) at e) in
          (
            sym (ap (λ (u : UsageResponse). lookup name u.users) same)
                ∙ lookup-map_values entry name t.users,
            sym (ap (λ (u : UsageResponse). u.month) same),
          )
    ]
