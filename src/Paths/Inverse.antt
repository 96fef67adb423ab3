-- ===== src/Paths/Inverse.antt =====
-- A path and back.
use encodeswarmr.Prelude.{
  ℕ, ◌≡◌, refl, ap, Bool, true, false, List, [], ◌∷◌, ◌++◌, ◌==◌, arith, All, inl, inr, Bool-cases,
  length,
}
use encodeswarmr.Prelude.Text.{has_prefix, drop_codes}
use encodeswarmr.Paths.{
  Bytes, slash, backslash, PathMapping, replace_all, trim_left, trim_right, is_unc, to_linux,
  to_windows, apply_mappings, reverse_map_path,
}

abbrev pub begins_with : ℕ → Bytes → Bool
begins_with a [] = false
begins_with a (c ∷ s) = c == a

-- The part of a path behind a mapped folder: it has no backslash, and does not begin with a slash.
abbrev pub IsRelative : Bytes → Type 0
IsRelative s = All (λ c. (c == backslash) ≡ false) s × (begins_with slash s ≡ false)

has_prefix-append : (p r : Bytes) → has_prefix p (p ++ r) ≡ true
unfolding has_prefix
has_prefix-append [] r = refl
has_prefix-append (c ∷ p) r = ground (arith, has_prefix-append p r)

has_prefix-later : (p s r : Bytes) → has_prefix p s ≡ true → has_prefix p (s ++ r) ≡ true
unfolding has_prefix
has_prefix-later [] s r h = refl
has_prefix-later (c ∷ p) [] r h = absurd (ground arith)
has_prefix-later (c ∷ p) (d ∷ s) r h = ground (arith, has_prefix-later p s r)

drop_codes-append : (p r : Bytes) → drop_codes (length p) (p ++ r) ≡ r
unfolding drop_codes
drop_codes-append [] r = refl
drop_codes-append (c ∷ p) r = drop_codes-append p r

trim_left-slash : (s : Bytes) → begins_with slash s ≡ false → trim_left slash (slash ∷ s) ≡ s
unfolding trim_left
trim_left-slash [] h = refl
trim_left-slash (c ∷ s) h = rw h refl

trim_left-backslash :
    (s : Bytes)
    → IsRelative s
    → trim_left backslash (backslash ∷ replace_all slash backslash s)
      ≡ replace_all slash backslash s
unfolding trim_left
trim_left-backslash [] h = refl
trim_left-backslash (c ∷ s) h = rw (h.1, h.0.0) refl

swap_back :
    (s : Bytes)
    → All (λ c. (c == backslash) ≡ false) s
    → replace_all backslash slash (replace_all slash backslash s) ≡ s
swap_back [] h = refl
swap_back (c ∷ s) h = elim (Bool-cases (c == slash)) [
  | inl e ↦ rw e (ground (arith, swap_back s h.1))
  | inr e ↦ rw (e, h.0) (ap (λ t. c ∷ t) (swap_back s h.1))
]

module _ (m : PathMapping) (rest : Bytes) (relative : IsRelative rest)
    (closed : trim_right backslash m.windows_prefix ≡ m.windows_prefix) where
  to_windows-folder :
      to_windows m (trim_right slash m.linux_prefix ++ slash ∷ rest)
      ≡ m.windows_prefix ++ backslash ∷ replace_all slash backslash rest
  to_windows-folder =
      rw
        (
          closed,
          drop_codes-append (trim_right slash m.linux_prefix) (slash ∷ rest),
          trim_left-backslash rest relative,
        )
        refl

  to_linux-share :
      to_linux m (m.windows_prefix ++ backslash ∷ replace_all slash backslash rest)
      ≡ trim_right slash m.linux_prefix ++ slash ∷ rest
  to_linux-share =
      rw
        (
          drop_codes-append m.windows_prefix (backslash ∷ replace_all slash backslash rest),
          swap_back rest relative.0,
          trim_left-slash rest relative.1,
        )
        refl

-- A local path behind a mapped folder, without a backslash in it, is taken to the share and back to
-- itself, when its mapping comes first, is enabled, and has a UNC prefix that does not end in a
-- backslash, and when strings.ToLower takes a text up to a backslash and the text from that backslash
-- on by themselves, as it does since no rune of more than one byte holds a backslash.
pub apply_mappings-reverse_map_path :
    (lower : Bytes → Bytes) (m : PathMapping) (ms : List PathMapping) (rest : Bytes)
    → ((a b : Bytes) → lower (a ++ backslash ∷ b) ≡ lower a ++ lower (backslash ∷ b))
    → m.enabled ≡ true
    → is_unc m.windows_prefix ≡ true
    → trim_right backslash m.windows_prefix ≡ m.windows_prefix
    → IsRelative rest
    → let path = trim_right slash m.linux_prefix ++ slash ∷ rest in
      apply_mappings lower (reverse_map_path path (m ∷ ms)) (m ∷ ms) ≡ path
unfolding apply_mappings reverse_map_path
apply_mappings-reverse_map_path lower m ms rest split e unc closed relative =
    let share = m.windows_prefix ++ backslash ∷ replace_all slash backslash rest in
    let tail = backslash ∷ replace_all slash backslash rest in
    rw
      (
        e,
        has_prefix-append (trim_right slash m.linux_prefix) (slash ∷ rest),
        to_windows-folder m rest relative closed,
        has_prefix-later _ m.windows_prefix tail unc,
        split m.windows_prefix (replace_all slash backslash rest),
        has_prefix-append (lower m.windows_prefix) (lower tail),
      )
      (to_linux-share m rest relative closed)
