-- ===== src/Tests/Releases.antt =====
-- internal/releases/releases.go and static_path.go: instances.
use tinkercloud.Prelude.{◌≡◌, ◌↔◌, refl, true, false, codes, all, text_eq}
use tinkercloud.Prelude.Strings.{contains_byte, to_lower, has_prefix}
use tinkercloud.Archive.Paths.{
  split_slash, path_clean, reduce_parts, join_slash, or_dot, slashed, dots,
}
use tinkercloud.Releases.{verified, active, uploading, uploaded, validating, staged, allowed}
use tinkercloud.Releases.Lifecycle.{Steps, stay, step}
use tinkercloud.Releases.StaticPaths.{servable, open_part, has_suffix, servable_iff}

lifetime : Steps uploading active
unfolding allowed
lifetime = step {t = uploaded} refl (
    step {t = validating} refl
      (step {t = staged} refl (step {t = verified} refl (step {t = active} refl (stay active)))))

servable_iff_example :
    (servable (codes "a/b.js") ≡ true)
    ↔ (contains_byte (codes "a/b.js") b'\\' ≡ false)
      × (all open_part (split_slash (codes "a/b.js")) ≡ true)
      × (has_suffix (to_lower (codes "a/b.js")) (codes ".map") ≡ false)
servable_iff_example = servable_iff (codes "a/b.js")

script_servable : servable (codes "a/b.js") ≡ true
unfolding servable text_eq has_prefix contains_byte path_clean split_slash reduce_parts dots or_dot
    join_slash slashed open_part has_suffix to_lower
script_servable = refl

map_hidden : servable (codes "a/b.js.MAP") ≡ false
unfolding servable text_eq has_prefix contains_byte path_clean split_slash reduce_parts dots or_dot
    join_slash slashed open_part has_suffix to_lower
map_hidden = refl
