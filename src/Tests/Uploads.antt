-- ===== src/Tests/Uploads.antt =====
-- internal/uploads/uploads.go: instances.
use tinkercloud.Prelude.{List, ◌≡◌, refl, [], ◌∷◌, Text, codes}
use tinkercloud.Uploads.{refused, quota_exceeded, copy}
use tinkercloud.Uploads.Copying.{IsTrue, copy-IsTrue, smooth}

abbrev sha : Text → Text
sha t = codes "#"

abbrev chunks : List Text
chunks = codes "ab" ∷ [] ∷ codes "c" ∷ []

copy-IsTrue_example : IsTrue sha 2 (copy sha 2 (smooth chunks))
copy-IsTrue_example = copy-IsTrue sha 2 (smooth chunks)

long_refused : (copy sha 2 (smooth chunks)).1 ≡ refused quota_exceeded
unfolding copy smooth
long_refused = refl
