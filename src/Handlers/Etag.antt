-- ===== src/Handlers/Etag.antt =====
-- handlers/handlers.go and proxy/handler.go: etagMatches, which both files declare alike, and configETag. The
-- SHA-256 sum of a text, as a list of bytes, is a parameter.
use Prim.Native.String
use llm_server_manager.Base.{
  Bool, true, false, List, [], ◌∷◌, ℕ, zero, suc, ◌/◌, ◌%◌, get_elem?, from_option, String, ◌==◌,
  if◌then◌else◌, any, trim_space, trim_prefix, split_at,
}

-- One part of the header's list, its weak prefix left out.
abbrev names_etag : String → String → Bool
names_etag etag part = trim_prefix "W/" (trim_space part) == etag

unfoldable pub etag_matches : String → String → Bool
etag_matches header etag =
    let trimmed = trim_space header in
    if trimmed == ""
    then false
    else if trimmed == "*"
    then true
    else any (names_etag etag) (split_at b',' trimmed)

-- One digit in base 16.
abbrev pub hex_digit : ℕ → String
hex_digit n = from_option "0" (
    get_elem?
      ("0" ∷ "1" ∷ "2" ∷ "3" ∷ "4" ∷ "5" ∷ "6" ∷ "7" ∷ "8" ∷ "9" ∷ "a" ∷ "b" ∷ "c" ∷ "d" ∷ "e" ∷ "f"
        ∷ [])
      n)

-- hex.EncodeToString of at most `count` bytes.
unfoldable pub hex : ℕ → List ℕ → String
hex zero bytes = ""
hex (suc count) [] = ""
hex (suc count) (b ∷ bytes) =
    String.◌++◌ (hex_digit (b / 16)) (String.◌++◌ (hex_digit (b % 16)) (hex count bytes))

-- The ETag of a sum.
unfoldable pub quoted : List ℕ → String
unfolding hex
quoted bytes = String.◌∷◌ "\"" (String.◌++◌ (hex 16 bytes) "\"")

-- configETag.
unfoldable pub config_etag : (String → List ℕ) → String → String
unfolding quoted
config_etag sum content = quoted (sum content)
