-- ===== src/Web/Token.antt =====
-- `generateToken` of web/src/helpers/utils.js: random bytes as a text.
pub mod Decode
use message_pusher.Base.{
  ℕ, ◌+◌, ◌-◌, ◌/◌, ◌%◌, Bool, true, false, List, [], ◌∷◌, ◌++◌, length, ltb, if◌then◌else◌,
}
use message_pusher.Text.{Text, in_range}

-- A digit of `toString(16)`
abbrev pub hex_digit : ℕ → ℕ
hex_digit d = if ltb d 10 then d + 48 else d + 87

-- `byte.toString(16)` of a byte
unfoldable pub to_hex : ℕ → Text
to_hex byte =
    if ltb byte 16 then hex_digit byte ∷ [] else hex_digit (byte / 16) ∷ hex_digit (byte % 16) ∷ []

-- `.padStart(2, '0')`
abbrev pub pad_two : Text → Text
pad_two [] = b'0' ∷ b'0' ∷ []
pad_two (c ∷ []) = b'0' ∷ c ∷ []
pad_two (c ∷ d ∷ s) = c ∷ d ∷ s

-- `.toUpperCase()` of ASCII units
abbrev pub upper_unit : ℕ → ℕ
upper_unit c = if in_range b'a' b'z' c then c - 32 else c

abbrev pub to_upper : Text → Text
to_upper [] = []
to_upper (c ∷ s) = upper_unit c ∷ to_upper s

abbrev pub hex_bytes : List ℕ → Text
hex_bytes [] = []
hex_bytes (byte ∷ bytes) = pad_two (to_hex byte) ++ hex_bytes bytes

unfoldable pub generate_token : List ℕ → Text
generate_token bytes = to_upper (hex_bytes bytes)
