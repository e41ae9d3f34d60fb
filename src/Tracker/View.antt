-- ===== src/Tracker/View.antt =====
-- The usage that internal/bandwidth/tracker.go keeps, seen as four numbers for each name.
use multi_protocol_proxy.Prelude.{
  ℕ, ◌*◌, ◌^◌, ◌<◌, true, Option, none, some, Bytes, ◌≡◌, ◌↔◌, refl, arith, ap, ◌∙◌, lookup, str_eq,
  str_eq_iff, positive, add64, sub64, slt, half_mod, if◌then◌else◌, lookup-insert,
  lookup-map_values, Option-cases, Bool-cases, positive-of_bounds, slt_iff, inl, inr,
}
use multi_protocol_proxy.Tracker.{
  Tracker, UserUsage, Moment, new_usage, usage_or_new, with_user, get_or_create, save_to_disk,
  reset_usage, check_monthly_reset, add_bytes, record_bytes, limit_bytes, check_allowance,
  get_usage, new_tracker, increment_conns, decrement_conns, check_conn_limit, add_conn, drop_conn,
}

pub record Counters : Type 0 where
  pub up : ℕ
  pub down : ℕ
  pub total : ℕ
  pub conns : ℕ

abbrev pub counters : UserUsage → Counters
counters u = record {
  up = u.bytes_up;
  down = u.bytes_down;
  total = u.total_bytes;
  conns = u.active_conns;
}

abbrev pub counters_or_zero : Option UserUsage → Counters
counters_or_zero (some u) = counters u
counters_or_zero none = record { up = 0; down = 0; total = 0; conns = 0 }

-- A name that is not stored counts as zero.
unfoldable pub view : Tracker → Bytes → Counters
view t k = counters_or_zero (lookup k t.users)

abbrev pub cleared : Counters → Counters
cleared c = record { up = 0; down = 0; total = 0; conns = c.conns }

abbrev pub plus_bytes : ℕ → ℕ → Counters → Counters
plus_bytes up down c = record c {
  up = add64 c.up up;
  down = add64 c.down down;
  total = add64 c.total (add64 up down);
}

-- A write to one name, by a function that acts on the counters alone.
pub with_user-view :
    (t : Tracker) (u k : Bytes) (m : Moment) (f : UserUsage → UserUsage) (g : Counters → Counters)
    → ((x : UserUsage) → counters (f x) ≡ g (counters x))
    → view (with_user t u m f) k ≡ (if str_eq u k then g (view t k) else view t k)
unfolding view with_user usage_or_new
with_user-view t u k m f g acts = elim (Bool-cases (str_eq u k)) [
  | inl same ↦ elim (Option-cases (lookup u t.users)) [
    | inl e ↦ ground (
      arith,
      lookup-insert u k (f (new_usage m.stamp)) t.users,
      acts (new_usage m.stamp),
      str_eq_iff u k,
    )
    | inr (x, e) ↦ ground (arith, lookup-insert u k (f x) t.users, acts x, str_eq_iff u k)
  ]
  | inr other ↦ ground (arith, lookup-insert u k (f (usage_or_new t u m)) t.users)
]

-- The first call in a month other than the stored one clears the bytes of every name, and keeps
-- the connections; any other leaves every name as it is.
pub check_monthly_reset-view :
    (t : Tracker) (m : Moment) (k : Bytes)
    → view (check_monthly_reset t m) k
      ≡ (if str_eq m.month t.month then view t k else cleared (view t k))
unfolding check_monthly_reset view
check_monthly_reset-view t m k = elim (Option-cases (lookup k t.users)) [
  | inl e ↦ ground (arith, lookup-map_values (reset_usage m.stamp) k t.users)
  | inr (x, e) ↦ ground (arith, lookup-map_values (reset_usage m.stamp) k t.users)
]

-- `RecordBytes` adds to the name's own three counters, modulo 2^64, and to those of no other
-- name, after the reset of a new month.
pub record_bytes-view :
    (t : Tracker) (u k : Bytes) (up down : ℕ) (m : Moment)
    → let base = if str_eq m.month t.month then view t k else cleared (view t k) in
      view (record_bytes t u up down m) k ≡ (if str_eq u k then plus_bytes up down base else base)
unfolding record_bytes
record_bytes-view t u k up down m =
    with_user-view (check_monthly_reset t m) u k m (add_bytes up down) (plus_bytes up down)
      (λ x. unfold add_bytes in refl)
    ∙ ap (λ (c : Counters). if str_eq u k then plus_bytes up down c else c)
        (check_monthly_reset-view t m k)

-- Looking a name up may store a record of zeros under it, which changes no counter.
pub get_or_create-view :
    (t : Tracker) (u k : Bytes) (m : Moment) → view (get_or_create t u m).0 k ≡ view t k
unfolding get_or_create
get_or_create-view t u k m = with_user-view t u k m (λ x. x) (λ c. c) (λ x. refl) ∙ ground arith

pub get_or_create-counters :
    (t : Tracker) (u : Bytes) (m : Moment) → counters (get_or_create t u m).1 ≡ view t u
unfolding get_or_create usage_or_new view
get_or_create-counters t u m = ground arith

-- What `checkMonthlyReset` leaves of a name.
abbrev pub after_reset : Tracker → Moment → Bytes → Counters
after_reset t m k = if str_eq m.month t.month then view t k else cleared (view t k)

pub check_allowance-view :
    (t : Tracker) (u k : Bytes) (gb : ℕ) (m : Moment)
    → view (check_allowance t u gb m).0 k ≡ (if positive gb then after_reset t m k else view t k)
unfolding check_allowance
check_allowance-view t u k gb m =
    ground
      (arith, get_or_create-view (check_monthly_reset t m) u k m, check_monthly_reset-view t m k)

pub check_allowance-result :
    (t : Tracker) (u : Bytes) (gb : ℕ) (m : Moment)
    → (check_allowance t u gb m).1
      ≡ (if positive gb then slt (after_reset t m u).total (limit_bytes gb) else true)
unfolding check_allowance
check_allowance-result t u gb m =
    let total : (counters (get_or_create (check_monthly_reset t m) u m).1).total
        ≡ (after_reset t m u).total =
      ap (λ (c : Counters). c.total)
        (get_or_create-counters (check_monthly_reset t m) u m ∙ check_monthly_reset-view t m u) in
    ground (arith, total)

-- For a limit below 2^33 GB the product with 2^30 does not wrap.
pub limit_bytes-exact : (gb : ℕ) → gb < 2 ^ 33 → limit_bytes gb ≡ gb * 2 ^ 30
unfolding limit_bytes
limit_bytes-exact gb h = omega arith

-- With a positive limit below 2^33 GB and a total below 2^63, `CheckAllowance` admits a name exactly
-- when its bytes of the current month are fewer than the limit's, at 2^30 to the GB.
pub check_allowance_iff :
    (t : Tracker) (u : Bytes) (gb : ℕ) (m : Moment)
    → 0 < gb
    → gb < 2 ^ 33
    → (after_reset t m u).total < half_mod
    → ((check_allowance t u gb m).1 ≡ true) ↔ ((after_reset t m u).total < gb * 2 ^ 30)
check_allowance_iff t u gb m pos small fits =
    let total : ℕ = (after_reset t m u).total in
    rw
      (
        check_allowance-result t u gb m,
        limit_bytes-exact gb small,
        positive-of_bounds gb pos (omega arith),
      )
      (slt_iff total (gb * 2 ^ 30) fits (omega arith))

abbrev pub plus_conn : Counters → Counters
plus_conn c = record c { conns = add64 c.conns 1 }

abbrev pub minus_conn : Counters → Counters
minus_conn c = if positive c.conns then record c { conns = sub64 c.conns 1 } else c

pub increment_conns-view :
    (t : Tracker) (u k : Bytes) (m : Moment)
    → view (increment_conns t u m) k ≡ (if str_eq u k then plus_conn (view t k) else view t k)
unfolding increment_conns
increment_conns-view t u k m =
    with_user-view t u k m add_conn plus_conn (λ x. unfold add_conn in refl)

pub decrement_conns-view :
    (t : Tracker) (u k : Bytes) (m : Moment)
    → view (decrement_conns t u m) k ≡ (if str_eq u k then minus_conn (view t k) else view t k)
unfolding decrement_conns
decrement_conns-view t u k m =
    with_user-view t u k m drop_conn minus_conn (λ x. unfold drop_conn in ground arith)

pub check_conn_limit-view :
    (t : Tracker) (u k : Bytes) (n : ℕ) (m : Moment)
    → view (check_conn_limit t u n m).0 k ≡ view t k
unfolding check_conn_limit
check_conn_limit-view t u k n m = ground (arith, get_or_create-view t u k m)

pub check_conn_limit-result :
    (t : Tracker) (u : Bytes) (n : ℕ) (m : Moment)
    → (check_conn_limit t u n m).1 ≡ (if positive n then slt (view t u).conns n else true)
unfolding check_conn_limit
check_conn_limit-result t u n m =
    ground (arith, ap (λ (c : Counters). c.conns) (get_or_create-counters t u m))

pub save_to_disk-view :
    (t : Tracker) (k : Bytes) (m : Moment) → view (save_to_disk t m) k ≡ view t k
unfolding save_to_disk view
save_to_disk-view t k m = refl

pub get_usage-view :
    (t : Tracker) (u k : Bytes) (m : Moment) → view (get_usage t u m).0 k ≡ view t k
unfolding get_usage
get_usage-view t u k m = get_or_create-view t u k m

pub new_tracker-view :
    (m : Moment) (k : Bytes) → view (new_tracker none m) k ≡ counters_or_zero none
unfolding new_tracker view lookup
new_tracker-view m k = refl
