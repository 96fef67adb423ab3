-- ===== src/Paths.antt =====
-- The path mappings: internal/controller/analysis/runner.go, ApplyMappings, from a share to the local
-- file system, and internal/controller/api/batch.go, reverseMapPath, back. A path is its bytes;
-- strings.ToLower is a parameter.
pub mod Inverse
use encodeswarmr.Prelude.{
  ℕ, zero, suc, Bool, true, false, not, List, [], ◌∷◌, ◌++◌, map, ◌==◌, if◌then◌else◌, length,
}
use encodeswarmr.Prelude.Text.{has_prefix, drop_codes}

abbrev pub Bytes : Type 0
Bytes = List ℕ

abbrev pub slash : ℕ
slash = 47

abbrev pub backslash : ℕ
backslash = 92

pub record PathMapping : Type 0 where
  pub windows_prefix : Bytes
  pub linux_prefix : Bytes
  pub enabled : Bool

-- strings.ReplaceAll of a byte by a byte.
abbrev pub swap_byte : ℕ → ℕ → ℕ → ℕ
swap_byte a b c = if c == a then b else c

abbrev pub replace_all : ℕ → ℕ → Bytes → Bytes
replace_all a b s = map (swap_byte a b) s

-- strings.TrimLeft and strings.TrimRight of a byte.
unfoldable pub trim_left : ℕ → Bytes → Bytes
trim_left a [] = []
trim_left a (c ∷ s) = let rest = trim_left a s in if c == a then rest else c ∷ s

abbrev pub cons_unless : ℕ → ℕ → Bytes → Bytes
cons_unless a c [] = if c == a then [] else c ∷ []
cons_unless a c (d ∷ s) = c ∷ d ∷ s

unfoldable pub trim_right : ℕ → Bytes → Bytes
trim_right a [] = []
trim_right a (c ∷ s) = cons_unless a c (trim_right a s)

abbrev pub is_unc : Bytes → Bool
is_unc path = has_prefix (backslash ∷ backslash ∷ []) path

-- The path on the local file system, for a mapping whose prefix matches.
abbrev pub to_linux : PathMapping → Bytes → Bytes
to_linux m path =
    trim_right slash m.linux_prefix
    ++ slash
      ∷ trim_left slash (replace_all backslash slash (drop_codes (length m.windows_prefix) path))

unfoldable pub apply_mappings : (Bytes → Bytes) → Bytes → List PathMapping → Bytes
unfolding has_prefix trim_left trim_right drop_codes
apply_mappings lower path [] = path
apply_mappings lower path (m ∷ ms) =
    let rest = apply_mappings lower path ms in
    if not m.enabled
    then rest
    else if is_unc path
    then (if has_prefix (lower m.windows_prefix) (lower path) then to_linux m path else rest)
    else if has_prefix m.linux_prefix path
    then path
    else rest

abbrev pub to_windows : PathMapping → Bytes → Bytes
to_windows m path =
    trim_right backslash m.windows_prefix
    ++ backslash
      ∷ trim_left backslash
          (replace_all slash backslash (drop_codes (length (trim_right slash m.linux_prefix)) path))

unfoldable pub reverse_map_path : Bytes → List PathMapping → Bytes
unfolding has_prefix trim_left trim_right drop_codes
reverse_map_path path [] = path
reverse_map_path path (m ∷ ms) =
    let rest = reverse_map_path path ms in
    if not m.enabled
    then rest
    else if has_prefix (trim_right slash m.linux_prefix) path
    then to_windows m path
    else rest
