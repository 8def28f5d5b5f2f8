-- ===== src/Config/Images/Normal.antt =====
-- Normalized image bases.
use message_pusher.Base.{◌≡◌, true, arith}
use message_pusher.Text.{Text, txt, starts_with}
use message_pusher.Result.{ok}
use message_pusher.Config.Images.{
  is_slash, first_piece, is_image_name, is_host, check_image_base, normalize_image_base,
}

-- What `normalizeImageBase` returns: a legal name that names no host but ghcr.io.
pub record IsImageBase (t : Text) : Type 0 where
  pub legal : is_image_name t ≡ true
  pub host : is_host (first_piece is_slash t) ≡ true → starts_with t (txt "ghcr.io/") ≡ true

-- The base that is returned is legal, and only ghcr.io stands as a host in it.
pub normalize_image_base-IsImageBase :
    (base t : Text) → normalize_image_base base ≡ ok t → IsImageBase t
unfolding normalize_image_base check_image_base
normalize_image_base-IsImageBase base t h = record {
  legal = ground arith;
  host = λ k. ground arith;
}
