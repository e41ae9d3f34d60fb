-- ===== src/Tracker.antt =====
-- internal/bandwidth/tracker.go: the usage of each user in the current month.
-- Every exported method holds the tracker's mutex, so it is one step. A method is given what it
-- reads of the world while it runs: the month and the time of the clock, and whether a write of
-- the usage file would succeed. Counters are 64-bit words that wrap.
pub mod View
pub mod Balance
pub mod Conns
pub mod Same
pub mod Admission
pub mod Disk
use mathlib.Core.Option
use multi_protocol_proxy.Prelude.{
  ℕ, ◌+◌, ◌*◌, ◌%◌, ◌^◌, Bool, true, false, not, ◌&&◌, List, [], ◌∷◌, ◌++◌, Option, none, some,
  Bytes, codes, Map, lookup, insert, map_values, str_eq, ltb, positive, length, add64, sub64, mul64,
  slt, if◌then◌else◌,
}

pub record UserUsage : Type 0 where
  pub bytes_up : ℕ
  pub bytes_down : ℕ
  pub total_bytes : ℕ
  pub last_reset_at : Bytes
  pub active_conns : ℕ

-- `users` is `none` where the file holds no users object.
pub record UsageFile : Type 0 where
  pub month : Bytes
  pub users : Option (Map UserUsage)

-- `disk` is what the usage file holds.
pub record Tracker : Type 0 where
  pub users : Map UserUsage
  pub month : Bytes
  pub disk : Option UsageFile

pub record Moment : Type 0 where
  pub month : Bytes
  pub stamp : Bytes
  pub writable : Bool

abbrev pub new_usage : Bytes → UserUsage
new_usage stamp = record {
  bytes_up = 0;
  bytes_down = 0;
  total_bytes = 0;
  last_reset_at = stamp;
  active_conns = 0;
}

-- What `getOrCreate` returns.
unfoldable pub usage_or_new : Tracker → Bytes → Moment → UserUsage
usage_or_new t username m = Option.get_or (lookup username t.users) (new_usage m.stamp)

-- `getOrCreate`, and then a write through the pointer that it returns.
unfoldable pub with_user : Tracker → Bytes → Moment → (UserUsage → UserUsage) → Tracker
unfolding usage_or_new
with_user t username m f = record t {
  users = insert username (f (usage_or_new t username m)) t.users;
}

-- `getOrCreate` alone stores the new record under a new name.
unfoldable pub get_or_create : Tracker → Bytes → Moment → Tracker × UserUsage
unfolding with_user
get_or_create t username m = (with_user t username m (λ u. u), usage_or_new t username m)

-- `saveToDiskLocked`, and `saveToDisk`, which takes the mutex first.
unfoldable pub save_to_disk : Tracker → Moment → Tracker
save_to_disk t m = record t {
  disk = if m.writable then some (record { month = t.month; users = some t.users }) else t.disk;
}

unfoldable pub reset_usage : Bytes → UserUsage → UserUsage
reset_usage stamp u = record u {
  bytes_up = 0;
  bytes_down = 0;
  total_bytes = 0;
  last_reset_at = stamp;
}

unfoldable pub check_monthly_reset : Tracker → Moment → Tracker
unfolding save_to_disk reset_usage
check_monthly_reset t m =
    if not (str_eq m.month t.month)
    then save_to_disk
        (record t { users = map_values (reset_usage m.stamp) t.users; month = m.month }) m
    else t

unfoldable pub add_bytes : ℕ → ℕ → UserUsage → UserUsage
add_bytes up down u = record u {
  bytes_up = add64 u.bytes_up up;
  bytes_down = add64 u.bytes_down down;
  total_bytes = add64 u.total_bytes (add64 up down);
}

unfoldable pub record_bytes : Tracker → Bytes → ℕ → ℕ → Moment → Tracker
unfolding with_user add_bytes check_monthly_reset
record_bytes t username up down m =
    with_user (check_monthly_reset t m) username m (add_bytes up down)

-- `int64(limitGB) * 1024 * 1024 * 1024`.
unfoldable pub limit_bytes : ℕ → ℕ
limit_bytes limit_gb = mul64 (mul64 (mul64 limit_gb 1024) 1024) 1024

unfoldable pub check_allowance : Tracker → Bytes → ℕ → Moment → Tracker × Bool
unfolding get_or_create check_monthly_reset limit_bytes
check_allowance t username limit_gb m =
    if not (positive limit_gb)
    then (t, true)
    else let (t', u) = get_or_create (check_monthly_reset t m) username m in
      (t', slt u.total_bytes (limit_bytes limit_gb))

unfoldable pub get_usage : Tracker → Bytes → Moment → Tracker × UserUsage
unfolding get_or_create
get_usage t username m = get_or_create t username m

unfoldable pub get_month : Tracker → Bytes
get_month t = t.month

unfoldable pub get_all_usage : Tracker → Map UserUsage
get_all_usage t = t.users

unfoldable pub add_conn : UserUsage → UserUsage
add_conn u = record u { active_conns = add64 u.active_conns 1 }

unfoldable pub drop_conn : UserUsage → UserUsage
drop_conn u =
    if positive u.active_conns then record u { active_conns = sub64 u.active_conns 1 } else u

unfoldable pub increment_conns : Tracker → Bytes → Moment → Tracker
unfolding with_user add_conn
increment_conns t username m = with_user t username m add_conn

unfoldable pub decrement_conns : Tracker → Bytes → Moment → Tracker
unfolding with_user drop_conn
decrement_conns t username m = with_user t username m drop_conn

unfoldable pub get_active_conns : Tracker → Bytes → Moment → Tracker × ℕ
unfolding get_or_create
get_active_conns t username m = let (t', u) = get_or_create t username m in (t', u.active_conns)

unfoldable pub check_conn_limit : Tracker → Bytes → ℕ → Moment → Tracker × Bool
unfolding get_or_create
check_conn_limit t username max_conns m =
    if not (positive max_conns)
    then (t, true)
    else let (t', u) = get_or_create t username m in (t', slt u.active_conns max_conns)

-- The part of `loadFromDisk` behind the parsing: the restored users, where they are restored.
unfoldable pub restored : UsageFile → Bytes → Option (Map UserUsage)
restored file current = if str_eq file.month current then file.users else none

-- `disk` is `none` where the file cannot be read or parsed.
unfoldable pub load_from_disk : Tracker → Moment → Tracker
unfolding restored
load_from_disk t m = elim t.disk [
  | none ↦ t
  | some file ↦ elim (restored file m.month) [
    | none ↦ t
    | some users ↦ record t {
      users = map_values (λ (u : UserUsage). record u { active_conns = 0 }) users;
      month = file.month;
    }
  ]
]

-- `NewTracker` over a file that holds `disk`.
unfoldable pub new_tracker : Option UsageFile → Moment → Tracker
unfolding load_from_disk
new_tracker disk m = load_from_disk (record { users = []; month = m.month; disk = disk }) m

unfoldable pub stop : Tracker → Moment → Tracker
unfolding save_to_disk
stop t m = save_to_disk t m
