-- ===== src/Worker/Mime.antt =====
-- core/crates/worker/src/mime.rs.
-- What stands behind the last character with this code; none without one.
use Prim.Native.Char.{code}
use aite.Base.{eqb, if◌then◌else◌, ℕ, String, ◌≡◌, refl, Option, none, some, List, [], ◌∷◌}
use aite.Control.Sessions.{or_text, value_at}
use aite.Control.Words.{lower_char, map_chars}

unfoldable pub behind_last : ℕ → String → Option String
behind_last n String.[] = none
behind_last n (String.◌∷◌ c s) = elim (behind_last n s) [
  | some rest ↦ some rest
  | none ↦ if eqb (code c) n then some s else none
]

abbrev extensions : List (String × String)
extensions =
    ("png", "image/png")
    ∷ ("jpg", "image/jpeg")
    ∷ ("jpeg", "image/jpeg")
    ∷ ("gif", "image/gif")
    ∷ ("webp", "image/webp")
    ∷ ("bmp", "image/bmp")
    ∷ ("svg", "image/svg+xml")
    ∷ ("pdf", "application/pdf")
    ∷ ("csv", "text/csv")
    ∷ ("txt", "text/plain")
    ∷ ("log", "text/plain")
    ∷ ("md", "text/markdown")
    ∷ ("html", "text/html")
    ∷ ("htm", "text/html")
    ∷ ("css", "text/css")
    ∷ ("json", "application/json")
    ∷ ("xml", "application/xml")
    ∷ ("yaml", "application/yaml")
    ∷ ("yml", "application/yaml")
    ∷ ("zip", "application/zip")
    ∷ ("gz", "application/gzip")
    ∷ ("py", "text/x-python")
    ∷ ("xlsx", "application/vnd.openxmlformats-officedocument.spreadsheetml.sheet")
    ∷ ("docx", "application/vnd.openxmlformats-officedocument.wordprocessingml.document")
    ∷ ("pptx", "application/vnd.openxmlformats-officedocument.presentationml.presentation")
    ∷ ("mp4", "video/mp4")
    ∷ ("mp3", "audio/mpeg")
    ∷ ("wav", "audio/x-wav")
    ∷ []

unfoldable pub guess : String → Option String
unfolding behind_last lower_char
guess path = elim (behind_last 46 (or_text (behind_last 47 path) path)) [
  | none ↦ none
  | some ext ↦ value_at (map_chars lower_char ext) extensions
]

guess_jpeg : guess "/work/out.d/plot.JPeg" ≡ some "image/jpeg"
unfolding guess
guess_jpeg = refl
