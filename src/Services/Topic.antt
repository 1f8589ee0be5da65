-- ===== src/Services/Topic.antt =====
-- encodeURL and GenerateTopic of services/job_factory.go. A URL is its bytes, one for each
-- character; it is ASCII.
mod Tests
use Prim.Native.Char.{code}
use Prim.Native.String.{◌++◌ as append, slice}
use descartes_legacy.Prelude.{
  ℕ, zero, suc, ◌+◌, ◌*◌, ◌/◌, ◌%◌, ◌<◌, ◌≡◌, refl, sym, ◌∙◌, ap, String, List, [], ◌∷◌, ◌++◌,
  length, arith,
}
use descartes_legacy.Prelude.Text.{join, byte_codes}

-- A letter of the alphabet of base64.StdEncoding.
letter : ℕ → String
letter n = slice "ABCDEFGHIJKLMNOPQRSTUVWXYZabcdefghijklmnopqrstuvwxyz0123456789+/" n (n + 1)

-- The four letters of three bytes.
encode_group : ℕ → ℕ → ℕ → String
unfolding letter
encode_group a b c = append (letter (a / 4)) (
    append (letter (a % 4 * 16 + b / 16)) (append (letter (b % 16 * 4 + c / 64)) (letter (c % 64))))

-- What the encoder has written when Write returns: the complete groups. One or two bytes that are
-- left wait for Close.
pub written : List ℕ → String
unfolding encode_group
written (a ∷ b ∷ c ∷ rest) = append (encode_group a b c) (written rest)
written _ = ""

-- encodeURL reads the buffer before its deferred Close runs.
pub encode_url : String → String
unfolding written
encode_url url = written (byte_codes url)

-- GenerateTopic
pub generate_topic : String → String → String → String
unfolding encode_url
generate_topic app server_url username = join "_" (app ∷ encode_url server_url ∷ username ∷ [])

-- The bytes of the complete groups.
abbrev pub whole_groups : List ℕ → List ℕ
whole_groups (a ∷ b ∷ c ∷ rest) = a ∷ b ∷ c ∷ whole_groups rest
whole_groups _ = []

written-whole_groups : (bytes : List ℕ) → written bytes ≡ written (whole_groups bytes)
unfolding written
written-whole_groups [] = refl
written-whole_groups (a ∷ []) = refl
written-whole_groups (a ∷ b ∷ []) = refl
written-whole_groups (a ∷ b ∷ c ∷ rest) =
    ap (append (encode_group a b c)) (written-whole_groups rest)

-- Two servers whose URLs differ only behind the last complete group of three bytes, by the one or
-- two bytes that the unclosed encoder drops, have the same topic for the same app and user.
pub generate_topic-collides :
    (app username url url' : String)
    → whole_groups (byte_codes url) ≡ whole_groups (byte_codes url')
    → generate_topic app url username ≡ generate_topic app url' username
unfolding generate_topic encode_url
generate_topic-collides app username url url' h =
    ap (λ e. join "_" (app ∷ e ∷ username ∷ []))
      (written-whole_groups (byte_codes url)
        ∙ ap written h
        ∙ sym (written-whole_groups (byte_codes url')))
