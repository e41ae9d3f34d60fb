-- ===== src/Manage.antt =====
-- scripts/manage-users.go: the console tool that edits the users file. Its User and UsersConfig are
-- those of internal/auth, field by field. What it prints is in Listing.
pub mod Distinct
pub mod Names
pub mod HashPassword
pub mod Listing
pub mod Accounts
use multi_protocol_proxy.Prelude.{
  ℕ, zero, suc, ◌+◌, ◌-◌, Bool, true, false, not, ◌&&◌, ◌||◌, List, [], ◌∷◌, ◌++◌, Option, none,
  some, Bytes, codes, to_lower, str_eq, slt, length, ◌==◌, take, drop, if◌then◌else◌,
}
use multi_protocol_proxy.Pac.{trim_space}
use multi_protocol_proxy.Auth.{User, UsersConfig, UsersFile, unreadable, unparsable, parsed}

-- What the tool takes from the standard library, from bcrypt and from the file system.
pub record Tools : Type 0 where
  -- `strconv.Atoi`: the number, which is also given with an error, and whether there is none
  pub atoi : Bytes → ℕ × Bool
  -- `time.Parse("2006-01-02", s)`, and then `Format(time.RFC3339)`
  pub parse_day : Bytes → Option Bytes
  -- `bcrypt.GenerateFromPassword`, `none` on an error
  pub generate_hash : Bytes → Option Bytes
  -- `strings.EqualFold`
  pub equal_fold : Bytes → Bytes → Bool
  -- whether `os.WriteFile` succeeds
  pub writable : Bool

-- The lines that are still to be read. At the end of the input a line is empty.
abbrev pub Lines : Type 0
Lines = List Bytes

unfoldable pub prompt : Lines → Bytes × Lines
prompt [] = (trim_space [], [])
prompt (l ∷ ls) = (trim_space l, ls)

unfoldable pub prompt_default : Bytes → Lines → Bytes × Lines
unfolding prompt
prompt_default default_value ls =
    let (text, ls') = prompt ls in ((if str_eq text [] then default_value else text), ls')

-- The loop that looks for the name.
unfoldable pub exists : (Bytes → Bytes → Bool) → Bytes → List User → Bool
exists equal_fold username [] = false
exists equal_fold username (u ∷ us) =
    if equal_fold u.username username then true else exists equal_fold username us

-- The answers to the questions behind the password.
unfoldable pub ask_user : Tools → Bytes → Bytes → Lines → User × Lines
unfolding prompt_default
ask_user t username hash ls =
    let (role, ls) = prompt_default (codes "user") ls in
    let (plan, ls) = prompt_default (codes "starter") ls in
    let (bw_limit, ls) = prompt_default (codes "0") ls in
    let (speed, ls) = prompt_default (codes "0") ls in
    let (max_conns, ls) = prompt_default (codes "0") ls in
    let (rpm, ls) = prompt_default (codes "0") ls in
    let (expires, ls) = prompt_default [] ls in
    (
      record {
        username = username;
        role = role;
        password_hash = hash;
        rate_limit_rpm = (t.atoi rpm).0;
        enabled = true;
        plan = plan;
        bandwidth_limit_gb = (t.atoi bw_limit).0;
        bandwidth_speed_mbps = (t.atoi speed).0;
        max_connections = (t.atoi max_conns).0;
        expires_at =
            if str_eq expires []
            then []
            else elim (t.parse_day expires) [ none ↦ [] | some day ↦ day ];
      },
      ls,
    )

unfoldable pub add_user : Tools → UsersConfig → Lines → UsersConfig × Lines
unfolding prompt exists ask_user
add_user t cfg ls =
    let (username, ls) = prompt ls in
    let (password, ls') = prompt ls in
    if str_eq username []
    then (cfg, ls)
    else if exists t.equal_fold username cfg.users
    then (cfg, ls)
    else if str_eq password []
    then (cfg, ls')
    else elim (t.generate_hash password) [
      | none ↦ (cfg, ls')
      | some hash ↦
          let (user, ls'') = ask_user t username hash ls' in
          (record cfg { users = cfg.users ++ user ∷ [] }, ls'')
    ]

-- The user that the line names by its number, from 0, and what is left to read. Three commands
-- begin so.
unfoldable pub select : Tools → UsersConfig → Lines → Option ℕ × Lines
unfolding prompt
select t cfg ls =
    let (idx_str, ls') = prompt ls in
    let (idx, valid) = t.atoi idx_str in
    if length cfg.users == 0
    then (none, ls)
    else if str_eq idx_str (codes "cancel")
    then (none, ls')
    else if not valid || slt idx 1 || slt (length cfg.users) idx
    then (none, ls')
    else (some (idx - 1), ls')

unfoldable pub remove_user : Tools → UsersConfig → Lines → UsersConfig × Lines
unfolding select
remove_user t cfg ls =
    let (selected, ls') = select t cfg ls in
    elim selected [
      | none ↦ (cfg, ls')
      | some i ↦ (record cfg { users = take i cfg.users ++ drop (suc i) cfg.users }, ls')
    ]

-- A write through `&cfg.Users[i]`.
unfoldable pub set_user : (User → User) → ℕ → List User → List User
set_user f i [] = []
set_user f zero (u ∷ us) = f u ∷ us
set_user f (suc i) (u ∷ us) = u ∷ set_user f i us

unfoldable pub toggle_user : Tools → UsersConfig → Lines → UsersConfig × Lines
unfolding select set_user
toggle_user t cfg ls =
    let (selected, ls') = select t cfg ls in
    elim selected [
      | none ↦ (cfg, ls')
      | some i ↦ (
        record cfg { users = set_user (λ u. record u { enabled = not u.enabled }) i cfg.users },
        ls',
      )
    ]

-- `if v := promptDefault(label, ""); v != ""`
unfoldable pub changed : Bytes → (Bytes → User → User) → User → User
changed v f u = if str_eq v [] then u else f v u

unfoldable pub change_password : Tools → Bytes → User → User
change_password t v u = elim (t.generate_hash v) [
  | none ↦ u
  | some hash ↦ record u { password_hash = hash }
]

unfoldable pub change_expiry : Tools → Bytes → User → User
change_expiry t v u =
    if str_eq v (codes "clear")
    then record u { expires_at = [] }
    else elim (t.parse_day v) [ none ↦ u | some day ↦ record u { expires_at = day } ]

-- What the answers to the seven questions are for, in their order.
abbrev pub Change : Type 0
Change = Bytes → User → User

unfoldable pub changes : Tools → List Change
unfolding change_password change_expiry
changes t =
    (λ v u. record u { plan = v })
    ∷ (λ v u. record u { bandwidth_limit_gb = (t.atoi v).0 })
    ∷ (λ v u. record u { bandwidth_speed_mbps = (t.atoi v).0 })
    ∷ (λ v u. record u { max_connections = (t.atoi v).0 })
    ∷ (λ v u. record u { rate_limit_rpm = (t.atoi v).0 })
    ∷ change_password t
    ∷ change_expiry t
    ∷ []

-- The questions, one after the other, and what the answers do to the user.
unfoldable pub ask_changes : List Change → Lines → (User → User) × Lines
unfolding prompt_default changed
ask_changes [] ls = (λ u. u, ls)
ask_changes (f ∷ fs) ls =
    let (v, ls') = prompt_default [] ls in
    let (rest, ls'') = ask_changes fs ls' in (λ u. rest (changed v f u), ls'')

unfoldable pub update_user : Tools → UsersConfig → Lines → UsersConfig × Lines
unfolding select changes ask_changes set_user
update_user t cfg ls =
    let (selected, ls') = select t cfg ls in
    elim selected [
      | none ↦ (cfg, ls')
      | some i ↦
          let (f, ls'') = ask_changes (changes t) ls' in
          (record cfg { users = set_user f i cfg.users }, ls'')
    ]

-- A file that cannot be read or parsed is started afresh.
unfoldable pub load_config : UsersFile → UsersConfig
load_config (parsed cfg) = cfg
load_config _ = record { users = []; ip_whitelist = []; super_admin_ips = [] }

unfoldable pub save_config : Tools → UsersFile → UsersConfig → UsersFile
save_config t file cfg = if t.writable then parsed cfg else file

-- One of the commands that edit, and then the save.
unfoldable pub edit :
    (Tools → UsersConfig → Lines → UsersConfig × Lines)
    → Tools
    → UsersFile
    → Lines
    → UsersFile × Lines
unfolding load_config save_config
edit command t file ls =
    let (cfg, ls') = command t (load_config file) ls in (save_config t file cfg, ls')

-- The cases of the menu, the default last.
pub data Choice : Type 0 where
  adds lists removes toggles updates hashes saves_and_exits exits invalid : Choice

unfoldable pub choice_of : Bytes → Choice
choice_of choice =
    if str_eq choice (codes "1")
    then adds
    else if str_eq choice (codes "2")
    then lists
    else if str_eq choice (codes "3")
    then removes
    else if str_eq choice (codes "4")
    then toggles
    else if str_eq choice (codes "5")
    then updates
    else if str_eq choice (codes "6")
    then hashes
    else if str_eq choice (codes "7")
    then saves_and_exits
    else if str_eq choice (codes "8")
    then exits
    else invalid

-- Whether the tool goes on, the file, and what is left to read.
unfoldable pub obey : Choice → Tools → UsersFile → Lines → Bool × (UsersFile × Lines)
unfolding prompt load_config save_config edit add_user remove_user toggle_user update_user
obey adds t file ls = (true, edit add_user t file ls)
obey lists t file ls = (true, (file, ls))
obey removes t file ls = (true, edit remove_user t file ls)
obey toggles t file ls = (true, edit toggle_user t file ls)
obey updates t file ls = (true, edit update_user t file ls)
obey hashes t file ls = (true, (file, (prompt ls).1))
obey saves_and_exits t file ls = (false, (save_config t file (load_config file), ls))
obey exits t file ls = (false, (file, ls))
obey invalid t file ls = (true, (file, ls))

-- One round of the loop of `main`.
unfoldable pub round : Tools → UsersFile → Lines → Bool × (UsersFile × Lines)
unfolding prompt choice_of obey
round t file ls = let (choice, ls') = prompt ls in obey (choice_of choice) t file ls'

-- The file after so many rounds of a session, or after fewer where it ends before.
unfoldable pub file_after : ℕ → Tools → UsersFile → Lines → UsersFile
unfolding round
file_after zero t file ls = file
file_after (suc n) t file ls =
    let (goes_on, (file', ls')) = round t file ls in
    let later = file_after n t file' ls' in if goes_on then later else file'

-- The file after a session of at most so many rounds, and `none` if the session goes on.
unfoldable pub main : ℕ → Tools → UsersFile → Lines → Option UsersFile
unfolding round
main zero t file ls = none
main (suc fuel) t file ls =
    let (goes_on, (file', ls')) = round t file ls in
    let rest = main fuel t file' ls' in if goes_on then rest else some file'
