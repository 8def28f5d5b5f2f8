-- ===== src/Matrix.antt =====
-- .forgejo/scripts/matrix.mjs: the variants that get a job (`planMatrix`).
pub mod Agreement
use message_pusher.Base.{
  Bool, true, false, not, List, [], ◌∷◌, Option, some, is_empty, if◌then◌else◌,
}
use message_pusher.Text.{Text, txt, Env}
use message_pusher.Result.{Result, ok, err, guard, ◌>>=◌, ◌>>◌, no_selection}
use message_pusher.Config.Variants.{
  Variant, names_of, variant_table_raw, parse_variants, variant_selection,
}
use message_pusher.Text.{or_text}
use message_pusher.Resolve.{dispatch_input}

pub record Matrix : Type 0 where
  pub variant : List Text
  pub variants : List Variant

unfoldable pub plan_matrix :
    Env → (Text → Option Text) → (Text → Option Text) → Text → Result Matrix
plan_matrix env inputs read_file table = do
  parsed ← parse_variants (or_text table (variant_table_raw env read_file))
  variants ← variant_selection parsed (some (dispatch_input env inputs (txt "VARIANTS")))
  guard (not (is_empty variants)) no_selection
  ok (record { variant = names_of variants; variants = variants })
