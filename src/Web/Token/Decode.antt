-- ===== src/Web/Token/Decode.antt =====
-- A token has all of the bytes in it.
use message_pusher.Base.{
  ℕ, ◌+◌, ◌-◌, ◌*◌, ◌/◌, ◌%◌, ◌<◌, ◌≡◌, refl, ap, ◌∙◌, List, [], ◌∷◌, ◌++◌, ltb, inl, inr,
  Bool-cases, length, All, arith, if◌then◌else◌,
}
use message_pusher.Text.{Text}
use message_pusher.Web.Token.{
  hex_digit, to_hex, pad_two, upper_unit, to_upper, hex_bytes, generate_token,
}

-- The value of an upper-case hexadecimal digit, and of a text of two for each byte.
abbrev pub digit_value : ℕ → ℕ
digit_value c = if ltb c 58 then c - 48 else c - 55

unfoldable pub decode : Text → List ℕ
decode [] = []
decode (_ ∷ []) = []
decode (a ∷ b ∷ s) = (digit_value a * 16 + digit_value b) ∷ decode s

digit_value-upper : (d : ℕ) → d < 16 → digit_value (upper_unit (hex_digit d)) ≡ d
digit_value-upper d h = ground arith

-- The two digits of a byte.
pad_two-to_hex :
    (byte : ℕ) → pad_two (to_hex byte) ≡ hex_digit (byte / 16) ∷ hex_digit (byte % 16) ∷ []
unfolding to_hex
pad_two-to_hex byte = elim (Bool-cases (ltb byte 16)) [
  | inr large ↦ rw large refl
  | inl small ↦
      let high : byte / 16 ≡ 0 = ground arith in
      let low : byte % 16 ≡ byte = ground arith in rw (small, high, low) refl
]

decode-byte :
    (byte : ℕ) (s : Text)
    → byte < 256
    → decode (to_upper (pad_two (to_hex byte) ++ s)) ≡ byte ∷ decode (to_upper s)
unfolding decode
decode-byte byte s h =
    let high = digit_value-upper (byte / 16) (omega arith) in
    let low = digit_value-upper (byte % 16) (omega arith) in
    rw (pad_two-to_hex byte, high, low) (ap (λ b. b ∷ decode (to_upper s)) (omega arith))

-- A token of bytes is read back as these bytes: it has two digits for each, and different bytes have
-- different tokens.
pub decode-generate_token :
    (bytes : List ℕ)
    → All (λ byte. byte < 256) bytes
    → (decode (generate_token bytes) ≡ bytes) × (length (generate_token bytes) ≡ 2 * length bytes)
unfolding generate_token decode
decode-generate_token bytes h = (read_back bytes h, two_each bytes)
  where
    read_back :
        (bytes : List ℕ)
        → All (λ byte. byte < 256) bytes
        → decode (to_upper (hex_bytes bytes)) ≡ bytes
    read_back [] h = refl
    read_back (byte ∷ bytes) (small, h) =
        decode-byte byte (hex_bytes bytes) small ∙ ap (λ l. byte ∷ l) (read_back bytes h)

    two_each : (bytes : List ℕ) → length (to_upper (hex_bytes bytes)) ≡ 2 * length bytes
    two_each [] = refl
    two_each (byte ∷ bytes) = let rest = two_each bytes in rw (pad_two-to_hex byte) (omega arith)
