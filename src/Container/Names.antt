-- ===== src/Container/Names.antt =====
-- `validate_name`: the names that a member of a container may have.
use turndb.Shared.{
  ℕ, Bool, false, ◌==◌, ◌||◌, ltb, if◌then◌else◌, List, [], ◌∷◌, length, Bytes, bytes_eq, Result,
  ◌>>◌, bail_if, member_name_empty, member_name_too_long, member_name_backslash, member_name_path,
}

-- `MAX_NAME`
abbrev pub max_name : ℕ
max_name = 4096

abbrev pub contains_byte : ℕ → Bytes → Bool
contains_byte x [] = false
contains_byte x (b ∷ bs) = b == x || contains_byte x bs

abbrev join_first : ℕ → List Bytes → List Bytes
join_first b [] = (b ∷ []) ∷ []
join_first b (part ∷ parts) = (b ∷ part) ∷ parts

-- `name.split(separator)`
unfoldable pub split : ℕ → Bytes → List Bytes
split separator [] = [] ∷ []
split separator (b ∷ bs) =
    let parts = split separator bs in if b == separator then [] ∷ parts else join_first b parts

abbrev pub slash : ℕ
slash = 0x2f

abbrev pub backslash : ℕ
backslash = 0x5c

abbrev dot : ℕ
dot = 0x2e

-- An empty component, `.` or `..`.
abbrev pub is_special : Bytes → Bool
is_special component =
    length component == 0 || bytes_eq component (dot ∷ []) || bytes_eq component (dot ∷ dot ∷ [])

abbrev pub any_special : List Bytes → Bool
any_special [] = false
any_special (component ∷ components) = is_special component || any_special components

unfoldable pub validate_name : Bytes → Result (Unit {0})
validate_name name = do
  bail_if (length name == 0) member_name_empty
  bail_if (ltb max_name (length name)) member_name_too_long
  bail_if (contains_byte backslash name) member_name_backslash
  bail_if (any_special (split slash name)) member_name_path
