-- ===== src/Examples/Console.antt =====
-- The theorems on the user management tool and on the console at concrete inputs.
use multi_protocol_proxy.Prelude.{
  ◌<◌, true, false, [], ◌∷◌, some, none, codes, str_eq, ◌≡◌, ◌↔◌, refl, arith, if◌then◌else◌, All,
}
use multi_protocol_proxy.Prelude.{lookup, to_lower, Bool-cases, inl, inr}
use multi_protocol_proxy.Pac.{trim_left, trim_right}
use multi_protocol_proxy.Manage.{load_config, exists}
use multi_protocol_proxy.Ui.Width.{IsWhole, IsPlain-IsWhole}
use multi_protocol_proxy.Ui.Table.{cell}
use multi_protocol_proxy.Ui.Table.Aligned.{IsRenderable, line_width, table_lines-line_width}
use multi_protocol_proxy.Ui.Table.Columns.{has_esc, has_esc-IsPlain}
use multi_protocol_proxy.Auth.{User, parsed, empty_store, validate_credentials, load_from_file}
use multi_protocol_proxy.Manage.{Tools, Lines, ask_user, add_user, file_after}
use multi_protocol_proxy.Manage.Distinct.{HasDistinct}
use multi_protocol_proxy.Manage.Names.{file_after-HasDistinct}
use multi_protocol_proxy.Manage.Accounts.{add_user-validates}
use multi_protocol_proxy.Pac.{trim_space}
use multi_protocol_proxy.Ui.{Text, visible_width}
use multi_protocol_proxy.Ui.Note.{Styles, note, split_lines, wrap_note_message}
use multi_protocol_proxy.Ui.Note.Wrap.{note-none_iff}
use multi_protocol_proxy.Ui.Table.{RenderTableOptions, border_ascii, align_left, table_lines}
use multi_protocol_proxy.Ui.Table.Aligned.{IsRenderable, line_width, table_lines-line_width}
use multi_protocol_proxy.Ui.Table.Columns.{has_esc, has_esc-IsPlain}
use multi_protocol_proxy.Examples.Data.{toy_host, alice, one_user}

-- A number is 1 or no number, a day is any text, and a hash is the password itself.
abbrev toy_tools : Tools
toy_tools = record {
  atoi = λ s. (if str_eq s (codes "1") then (1, true) else (0, false));
  parse_day = some;
  generate_hash = some;
  equal_fold = λ s t. str_eq (to_lower s) (to_lower t);
  writable = true;
}

abbrev bob : User
bob = record {
  username = codes "Bob";
  role = codes "user";
  password_hash = codes "pw";
  rate_limit_rpm = 0;
  enabled = true;
  plan = codes "starter";
  bandwidth_limit_gb = 0;
  bandwidth_speed_mbps = 0;
  max_connections = 0;
  expires_at = [];
}

-- Bob is added with the defaults, and the file is saved.
abbrev adding_bob : Lines
adding_bob =
    codes "1" ∷ codes "Bob" ∷ codes "pw" ∷ [] ∷ [] ∷ [] ∷ [] ∷ [] ∷ [] ∷ [] ∷ codes "7" ∷ []

file_after-HasDistinct_example :
    HasDistinct toy_tools (file_after 2 toy_tools (parsed one_user) adding_bob)
unfolding load_config
file_after-HasDistinct_example =
    file_after-HasDistinct 2 toy_tools (parsed one_user) adding_bob (tt, tt)

-- Bob is in the file then.
bob_added :
    file_after 2 toy_tools (parsed one_user) adding_bob
    ≡ parsed (record one_user { users = alice ∷ bob ∷ [] })
unfolding load_config file_after str_eq trim_space trim_left trim_right to_lower
bob_added = refl

add_user-validates_example :
    (validate_credentials toy_host
      (load_from_file toy_host
        (λ m. m)
        empty_store
        (parsed (add_user toy_tools one_user (codes "Bob" ∷ codes "pw" ∷ [])).0)
        0).0
      5
      (codes "BOB")
      (trim_space (codes "pw"))).1
    ≡ some (ask_user toy_tools (trim_space (codes "Bob")) (codes "pw") []).0
unfolding str_eq trim_space trim_left trim_right to_lower exists
add_user-validates_example =
    add_user-validates toy_tools toy_host (λ m. m) one_user (codes "Bob") (codes "pw") (codes "pw")
      (codes "BOB") [] 0 5 refl refl refl refl refl refl

abbrev no_styles : Styles
no_styles = record { rich = false; muted = λ s. s; heading = λ s. s; primary = λ s. s }

note-none_iff_example : (note no_styles (λ s. none) none (codes "hi") (codes "Warning") ≡ none) ↔ (
    (0 < visible_width (codes "Warning"))
    × All
        (λ line. visible_width line < visible_width (codes "Warning"))
        (split_lines (wrap_note_message (λ s. none) none (codes "hi") 80)))
note-none_iff_example = note-none_iff no_styles (λ s. none) none (codes "hi") (codes "Warning")

abbrev one_column : RenderTableOptions
one_column = record {
  columns =
      record {
        key = codes "k";
        header = codes "Key";
        align = align_left;
        min_width = 0;
        max_width = 0;
      }
      ∷ [];
  rows = ((codes "k", codes "value") ∷ []) ∷ [];
  border = border_ascii;
  padding = 1;
}

one_cell : (key : Text) → IsWhole (cell key ((codes "k", codes "value") ∷ []))
unfolding cell lookup has_esc
one_cell key = elim (Bool-cases (str_eq (codes "k") key)) [
  | inl there ↦ rw there (IsPlain-IsWhole (codes "value") (has_esc-IsPlain (codes "value") refl))
  | inr missing ↦ rw missing (IsPlain-IsWhole [] tt)
]

one_column-IsRenderable : IsRenderable one_column
unfolding has_esc
one_column-IsRenderable = record {
  slim = omega arith;
  columns = ((refl, IsPlain-IsWhole (codes "Key") (has_esc-IsPlain (codes "Key") refl)), tt);
  cells = (one_cell, tt);
}

table_lines-line_width_example :
    All (λ l. visible_width l ≡ line_width one_column) (table_lines one_column)
table_lines-line_width_example = table_lines-line_width one_column one_column-IsRenderable
