-- ===== src/Tests/Folders.antt =====
-- The path mappings at a concrete folder.
use encodeswarmr.Prelude.{◌≡◌, refl, true, [], ◌∷◌, ◌++◌, map}
use mathlib.Core.List.{map-append}
use encodeswarmr.Prelude.Text.{codes, to_lower, has_prefix}
use encodeswarmr.Paths.{
  Bytes, slash, backslash, PathMapping, trim_right, apply_mappings, reverse_map_path,
}
use encodeswarmr.Paths.Inverse.{apply_mappings-reverse_map_path}

abbrev media : PathMapping
media = record {
  windows_prefix = codes "\\\\NAS\\media";
  linux_prefix = codes "/mnt/media/";
  enabled = true;
}

abbrev film : Bytes
film = codes "a/b"

apply_mappings-reverse_map_path_example :
    apply_mappings
      (map to_lower)
      (reverse_map_path (trim_right slash media.linux_prefix ++ slash ∷ film) (media ∷ []))
      (media ∷ [])
    ≡ trim_right slash media.linux_prefix ++ slash ∷ film
unfolding has_prefix trim_right
apply_mappings-reverse_map_path_example =
    apply_mappings-reverse_map_path (map to_lower) media [] film
      (λ a b. map-append to_lower a (backslash ∷ b)) refl refl refl
      ((refl, (refl, (refl, tt))), refl)
