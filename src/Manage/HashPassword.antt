-- ===== src/Manage/HashPassword.antt =====
-- scripts/hash-password.go. The loop runs on fuel, one for each round; what is printed is the list of
-- the hashes.
use mathlib.Core.Option
use multi_protocol_proxy.Prelude.{
  ℕ, zero, suc, Bool, List, [], ◌∷◌, ◌++◌, Option, none, some, Bytes, codes, str_eq, to_lower, ◌==◌,
  if◌then◌else◌, ◌≡◌, refl,
}
use multi_protocol_proxy.Pac.{trim_space}

unfoldable pub is_quit : Bytes → Bool
is_quit line = str_eq (to_lower (trim_space line)) (codes "quit")

-- What a round prints of a password: nothing where it is empty, or where there is no hash.
unfoldable pub hashed : (Bytes → Option Bytes) → Bytes → List Bytes
hashed generate_hash password =
    if str_eq password []
    then []
    else elim (generate_hash password) [ none ↦ [] | some hash ↦ hash ∷ [] ]

-- `reader.ReadString('\n')`: the line with its end, and what is behind it; `none` is the error at the
-- end of the input, where what stands behind the last end of a line is lost.
unfoldable pub read_line : Bytes → Option (Bytes × Bytes)
read_line [] = none
read_line (c ∷ input) =
    let later = read_line input in
    if c == 10
    then some (c ∷ [], input)
    else elim later [ none ↦ none | some (line, rest) ↦ some (c ∷ line, rest) ]

-- `main`, with the bytes of the input. A failed read is reported, and the loop goes on.
unfoldable pub hash_passwords : (Bytes → Option Bytes) → ℕ → Bytes → Option (List Bytes)
unfolding is_quit hashed read_line
hash_passwords generate_hash zero input = none
hash_passwords generate_hash (suc n) input = elim (read_line input) [
  | none ↦ hash_passwords generate_hash n []
  | some (line, rest) ↦
      if is_quit line
      then some []
      else Option.map (λ hashes. hashed generate_hash (trim_space line) ++ hashes)
          (hash_passwords generate_hash n rest)
]

hash_passwords-end :
    (generate_hash : Bytes → Option Bytes) (n : ℕ) → hash_passwords generate_hash n [] ≡ none
unfolding hash_passwords read_line
hash_passwords-end g zero = refl
hash_passwords-end g (suc n) = hash_passwords-end g n

-- An input without the end of a line, whatever it says, never ends the tool.
pub hash_passwords-unterminated :
    (generate_hash : Bytes → Option Bytes) (n : ℕ) (input : Bytes)
    → read_line input ≡ none
    → hash_passwords generate_hash n input ≡ none
unfolding hash_passwords
hash_passwords-unterminated g zero input e = refl
hash_passwords-unterminated g (suc n) input e = rw (e, hash_passwords) (hash_passwords-end g n)
