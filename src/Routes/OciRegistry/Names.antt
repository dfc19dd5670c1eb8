-- ===== src/Routes/OciRegistry/Names.antt =====
-- src/routes/oci-registry.ts: which texts are repositories, tags and digests.
use Prim.Native.Char.{Char, code}
use Prim.Native.String.{[], ◌∷◌, count}
use cloister.Prelude.{
  ℕ, String, Bool, true, false, ◌&&◌, ◌||◌, Option, none, some, leb, if◌then◌else◌,
}
use cloister.Prelude.Keys.{◌==◌, nat_eq, string_eq}
use cloister.Prelude.Text.{◌&◌}
use cloister.Prelude.Chars.{cut_at}
use cloister.Storage.Workerd.Refs.{is_digest}

abbrev between : ℕ → Char → ℕ → Bool
between low c high = leb low (code c) && leb (code c) high

abbrev lower_or_digit : Char → Bool
lower_or_digit c = between b'a' c b'z' || between b'0' c b'9'

abbrev repo_char : Char → Bool
repo_char c =
    lower_or_digit c || code c == b'.' || code c == b'_' || code c == b'/' || code c == b'-'

abbrev word_char : Char → Bool
word_char c = lower_or_digit c || between b'A' c b'Z' || code c == b'_'

abbrev tag_char : Char → Bool
tag_char c = word_char c || code c == b'.' || code c == b'-'

unfoldable pub all_chars : (Char → Bool) → String → Bool
all_chars p [] = true
all_chars p (c ∷ s) = p c && all_chars p s

-- REPO_NAME_RE
unfoldable pub is_repo_name : String → Bool
unfolding all_chars
is_repo_name [] = false
is_repo_name (c ∷ s) = lower_or_digit c && all_chars repo_char s && leb (count s) 254

-- TAG_RE
unfoldable pub is_tag : String → Bool
unfolding all_chars
is_tag [] = false
is_tag (c ∷ s) = word_char c && all_chars tag_char s && leb (count s) 127

abbrev pub after_sha256 : Option (String × String) → Option String
after_sha256 none = none
after_sha256 (some (algorithm, hex)) = if algorithm == "sha256" then some hex else none

-- `s.slice("sha256:".length)` where `s.startsWith("sha256:")`: the text before the first colon is
-- "sha256" just then.
unfoldable pub sha256_part : String → Option String
sha256_part s = after_sha256 (cut_at b':' s)

abbrev pub sha256_ref : String → String
sha256_ref hex = "sha256" & (":" & hex)

abbrev pub digest_or_none : Option String → Option String
digest_or_none none = none
digest_or_none (some hex) = if is_digest hex then some hex else none

unfoldable pub parse_sha256_param : String → Option String
unfolding sha256_part
parse_sha256_param value = digest_or_none (sha256_part value)
