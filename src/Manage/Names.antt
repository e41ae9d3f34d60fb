-- ===== src/Manage/Names.antt =====
-- scripts/manage-users.go: the names in the users file.
use multi_protocol_proxy.Prelude.{
  ℕ, zero, suc, Bytes, Bool, true, false, [], ◌∷◌, ◌++◌, none, str_eq, if◌then◌else◌, ◌≡◌, refl,
  sym, subst, Bool-cases, Option-cases, inl, inr,
}
use multi_protocol_proxy.Pac.{trim_space, trim_left, trim_right}
use multi_protocol_proxy.Auth.{User, UsersConfig, UsersFile, parsed}
use multi_protocol_proxy.Manage.{
  Tools, Lines, prompt, exists, changes, ask_user, add_user, select, remove_user, toggle_user,
  ask_changes, update_user, load_config, save_config, edit, round, main, file_after, choice_of,
  obey, Choice, adds, lists, removes, toggles, updates, hashes, saves_and_exits, exits, invalid,
}
use multi_protocol_proxy.Manage.Distinct.{
  names, AreDistinct, HasDistinct, exists-All, AreDistinct-append, AreDistinct-without,
  names-append, names-without, names-set_user, ask_changes-KeepsName, changes-KeepsName, Keeps,
}

data IsAdded (equal_fold : Bytes → Bytes → Bool) (cfg : UsersConfig) : UsersConfig → Type 0 where
  same : IsAdded equal_fold cfg cfg
  added :
      (user : User)
      → exists equal_fold user.username cfg.users ≡ false
      → IsAdded equal_fold cfg (record cfg { users = cfg.users ++ user ∷ [] })

add_user-IsAdded :
    (t : Tools) (cfg : UsersConfig) (ls : Lines) → IsAdded t.equal_fold cfg (add_user t cfg ls).0
unfolding add_user ask_user
add_user-IsAdded t cfg ls = elim (Bool-cases (str_eq (prompt ls).0 [])) [
  | inl empty ↦ rw (empty, add_user) same
  | inr given ↦ elim (Bool-cases (exists t.equal_fold (prompt ls).0 cfg.users)) [
    | inl taken ↦ rw (given, taken, add_user) same
    | inr free ↦ elim (Bool-cases (str_eq (prompt (prompt ls).1).0 [])) [
      | inl none_typed ↦ rw (given, free, none_typed, add_user) same
      | inr typed ↦ elim (Option-cases (t.generate_hash (prompt (prompt ls).1).0)) [
        | inl failed ↦ rw (given, free, typed, failed, add_user) same
        | inr (hash, hashed) ↦ rw (given, free, typed, hashed, add_user) (added _ free)
      ]
    ]
  ]
]

add_user-Keeps : Keeps add_user
add_user-Keeps t cfg ls d = go (add_user-IsAdded t cfg ls)
  where
    go :
        {cfg' : UsersConfig}
        → IsAdded t.equal_fold cfg cfg'
        → AreDistinct t.equal_fold (names cfg'.users)
    go same = d
    go (added user free) = rw (names-append cfg.users user) (
        AreDistinct-append t.equal_fold (names cfg.users) user.username d
          (exists-All t.equal_fold user.username cfg.users free))

remove_user-Keeps : Keeps remove_user
unfolding remove_user
remove_user-Keeps t cfg ls d = elim (Option-cases (select t cfg ls).0) [
  | inl nobody ↦ rw (nobody, remove_user) d
  | inr (i, chosen) ↦
      rw (chosen, remove_user, names-without)
        (AreDistinct-without t.equal_fold i (names cfg.users) d)
]

toggle_user-Keeps : Keeps toggle_user
unfolding toggle_user
toggle_user-Keeps t cfg ls d = elim (Option-cases (select t cfg ls).0) [
  | inl nobody ↦ rw (nobody, toggle_user) d
  | inr (i, chosen) ↦
      rw (chosen, toggle_user)
        (subst (AreDistinct t.equal_fold) (sym (names-set_user _ i cfg.users (λ u. refl))) d)
]

update_user-Keeps : Keeps update_user
unfolding update_user
update_user-Keeps t cfg ls d = elim (Option-cases (select t cfg ls).0) [
  | inl nobody ↦ rw (nobody, update_user) d
  | inr (i, chosen) ↦
      rw (chosen, update_user)
        (subst (AreDistinct t.equal_fold)
          (sym (
            names-set_user (ask_changes (changes t) (select t cfg ls).1).0 i cfg.users
              (ask_changes-KeepsName (changes t) (select t cfg ls).1 (changes-KeepsName t))))
          d)
]

if_both : {A : Type 0} (P : A → Type 0) (b : Bool) (x y : A) → P x → P y → P (if b then x else y)
if_both P true x y p q = p
if_both P false x y p q = q

edit-HasDistinct :
    (command : Tools → UsersConfig → Lines → UsersConfig × Lines) (t : Tools) (file : UsersFile)
    (ls : Lines)
    → Keeps command
    → HasDistinct t file
    → HasDistinct t (edit command t file ls).0
unfolding edit load_config save_config
edit-HasDistinct command t file ls k d =
    if_both (HasDistinct t) t.writable (parsed (command t (load_config file) ls).0) file
      (k t (load_config file) ls d) d

save_config-HasDistinct :
    (t : Tools) (file : UsersFile)
    → HasDistinct t file
    → HasDistinct t (save_config t file (load_config file))
unfolding save_config load_config
save_config-HasDistinct t file d =
    if_both (HasDistinct t) t.writable (parsed (load_config file)) file d d

obey-HasDistinct :
    (choice : Choice) (t : Tools) (file : UsersFile) (ls : Lines)
    → HasDistinct t file
    → HasDistinct t (obey choice t file ls).1.0
unfolding obey
obey-HasDistinct adds t file ls d = edit-HasDistinct add_user t file ls add_user-Keeps d
obey-HasDistinct removes t file ls d = edit-HasDistinct remove_user t file ls remove_user-Keeps d
obey-HasDistinct toggles t file ls d = edit-HasDistinct toggle_user t file ls toggle_user-Keeps d
obey-HasDistinct updates t file ls d = edit-HasDistinct update_user t file ls update_user-Keeps d
obey-HasDistinct saves_and_exits t file ls d = save_config-HasDistinct t file d
obey-HasDistinct lists t file ls d = d
obey-HasDistinct hashes t file ls d = d
obey-HasDistinct exits t file ls d = d
obey-HasDistinct invalid t file ls d = d

round-HasDistinct :
    (t : Tools) (file : UsersFile) (ls : Lines)
    → HasDistinct t file
    → HasDistinct t (round t file ls).1.0
unfolding round
round-HasDistinct t file ls d = obey-HasDistinct (choice_of (prompt ls).0) t file (prompt ls).1 d

-- Whatever is typed, and whenever the tool stops or is stopped: after any number of rounds of a
-- session there are no two users in the file whose names `strings.EqualFold` takes for equal, if there
-- were none before.
pub file_after-HasDistinct :
    (n : ℕ) (t : Tools) (file : UsersFile) (ls : Lines)
    → HasDistinct t file
    → HasDistinct t (file_after n t file ls)
unfolding file_after
file_after-HasDistinct zero t file ls d = d
file_after-HasDistinct (suc n) t file ls d =
    let after = round-HasDistinct t file ls d in
    if_both (HasDistinct t) (round t file ls).0 _ _
      (file_after-HasDistinct n t (round t file ls).1.0 (round t file ls).1.1 after) after

-- At the end of its input the tool does not end: it asks again, without end.
pub main-end_of_input : (fuel : ℕ) (t : Tools) (file : UsersFile) → main fuel t file [] ≡ none
unfolding main str_eq trim_space trim_right trim_left
main-end_of_input zero t file = refl
main-end_of_input (suc fuel) t file = main-end_of_input fuel t file
