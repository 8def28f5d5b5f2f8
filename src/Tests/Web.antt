-- ===== src/Tests/Web.antt =====
-- The client's pause and a token at concrete values.
use message_pusher.Base.{ℕ, ◌*◌, ◌≤◌, ◌<◌, ◌≡◌, ◌↔◌, true, List, [], ◌∷◌, some, length, arith, All}
use message_pusher.Web.Limit.{is_rate_limited, remain_seconds, after_error}
use message_pusher.Web.Limit.Cooldown.{Steps, stay, wait, fail, remain_seconds_bound}
use message_pusher.Web.Token.{generate_token}
use message_pusher.Web.Token.Decode.{decode, decode-generate_token}

-- A 429 at 1000, and a server error five seconds later.
two_failures : Steps 1000 0 6000 (after_error (after_error 0 1000 (some 429)) 6000 (some 500))
two_failures =
    fail 6000 (after_error 0 1000 (some 429)) (some 500)
      (wait 1000 (after_error 0 1000 (some 429)) 5000 (fail 1000 0 (some 429) stay))

remain_seconds_bound_example :
    (remain_seconds (after_error (after_error 0 1000 (some 429)) 6000 (some 500)) 6000 ≤ 210)
    × ((is_rate_limited (after_error (after_error 0 1000 (some 429)) 6000 (some 500)) 6000 ≡ true)
        ↔ (0 < remain_seconds (after_error (after_error 0 1000 (some 429)) 6000 (some 500)) 6000))
remain_seconds_bound_example =
    remain_seconds_bound 1000 6000 (after_error (after_error 0 1000 (some 429)) 6000 (some 500))
      two_failures

abbrev two_bytes : List ℕ
two_bytes = 10 ∷ 255 ∷ []

two_bytes-AreBytes : All (λ byte. byte < 256) two_bytes
two_bytes-AreBytes = (omega arith, (omega arith, tt))

decode-generate_token_example :
    (decode (generate_token two_bytes) ≡ two_bytes)
    × (length (generate_token two_bytes) ≡ 2 * length two_bytes)
decode-generate_token_example = decode-generate_token two_bytes two_bytes-AreBytes
