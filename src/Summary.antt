-- ===== src/Summary.antt =====
-- .forgejo/scripts/summary.mjs: the digest table of a run.
pub mod Rows
use message_pusher.Base.{
  ℕ, Bool, true, false, not, List, [], ◌∷◌, ◌++◌, map, Option, none, some, any, is_empty, take,
  if◌then◌else◌,
}
use message_pusher.Text.{Text, txt, join, or_text}
use message_pusher.Config.Lists.{is_nonempty, platforms_for}
use message_pusher.Config.Variants.{Variant}
use message_pusher.Config.Images.{BuildOptions}
use message_pusher.State.{State, Build, BuildImage}

-- `result.builder`
pub data Builder : Type 0 where
  imagetools buildx other_builder : Builder

-- An entry of `state.results`; a list that is missing is empty here.
pub record RunResult : Type 0 where
  pub builder : Builder
  pub variant : Text
  pub digest : Text
  pub platforms : List Text
  pub published : List Text
  pub staging : List Text
  pub images : List BuildImage
  pub skipped : Bool

-- `images.flatMap((image) => image.tags)`
abbrev pub image_tags : List BuildImage → List Text
image_tags [] = []
image_tags (image ∷ images) = image.tags ++ image_tags images

unfoldable pub result_refs : RunResult → List Text
result_refs r =
    if is_empty r.published
    then if is_empty r.staging then image_tags r.images else r.staging
    else r.published

abbrev pub status_of : RunResult → Text
status_of r = elim r.builder [
  | imagetools ↦ txt "imagetools（提升）"
  | buildx ↦ if r.skipped then txt "buildx（复用 staging）" else txt "buildx（staging）"
  | other_builder ↦ txt "docker（降级）"
]

abbrev pub head_line : RunResult → Text
head_line r =
    r.variant
    ++ (txt " ["
        ++ (status_of r
            ++ (txt "]"
                ++ ((if is_empty r.platforms
                      then []
                      else txt " platforms=" ++ join (txt ",") r.platforms)
                    ++ (if is_nonempty r.digest then txt " " ++ r.digest else [])))))

abbrev pub ref_line : Text → Text
ref_line tag = txt "  " ++ tag

unfoldable pub summary_lines : List RunResult → List Text
summary_lines [] = []
summary_lines (r ∷ results) = head_line r ∷ (map ref_line (result_refs r) ++ summary_lines results)

abbrev pub platforms_or_native : List Text → Text
platforms_or_native platforms = or_text (join (txt "+") platforms) (txt "本机")

abbrev pub build_entry : BuildOptions → Build → Text
build_entry options b =
    b.variant ++ (txt "=" ++ platforms_or_native (platforms_for b.platforms options.platforms))

abbrev pub variant_entry : BuildOptions → Variant → Text
variant_entry options v =
    v.name ++ (txt "=" ++ platforms_or_native (platforms_for v.platforms options.platforms))

-- `platformSummary`; `none` is a state file that no program has added builds to
unfoldable pub platform_summary : State → Option (List Build) → Text
platform_summary state planned = elim planned [
  | none ↦ join (txt "、") (map (variant_entry state.options) state.variants)
  | some builds ↦ join (txt "、") (map (build_entry state.options) builds)
]

abbrev pub row_of : RunResult → Text → Text
row_of r ref_ =
    txt "| "
    ++ (r.variant
        ++ (txt " | `" ++ (ref_ ++ (txt "` | `" ++ (or_text r.digest (txt "—") ++ txt "` |")))))

unfoldable pub summary_rows : List RunResult → List Text
summary_rows [] = []
summary_rows (r ∷ results) = map (row_of r) (result_refs r) ++ summary_rows results

abbrev pub is_published : RunResult → Bool
is_published r = elim r.builder [ imagetools ↦ true | buildx ↦ false | other_builder ↦ false ]

unfoldable pub push_line : Bool → List RunResult → Text
push_line dry_run results =
    if dry_run
    then txt "否（dry run）"
    else if any is_published results
    then txt "是（最终标签已发布）"
    else if any (λ (r : RunResult). not (is_empty r.staging)) results
    then txt "staging（最终标签由 publish 作业发布）"
    else txt "否"

abbrev pub name_of : Variant → Text
name_of v = v.name

-- `summaryMarkdown`
unfoldable pub summary_markdown : State → Option (List Build) → List RunResult → Text
summary_markdown state planned results = join (txt "\n") (
    (txt "## docker-build-push " ++ state.version)
    ∷ []
    ∷ (txt "- 仓库：" ++ state.repo)
    ∷ (txt "- tag："
        ++ (state.tag ++ (txt "（sha " ++ (or_text (take 7 state.sha) (txt "—") ++ txt "）"))))
    ∷ (txt "- 变体：" ++ join (txt "、") (map name_of state.variants))
    ∷ (txt "- 平台：" ++ platform_summary state planned)
    ∷ (txt "- 推送：" ++ push_line state.dry_run results)
    ∷ []
    ∷ txt "| 变体 | tag | digest |"
    ∷ txt "| --- | --- | --- |"
    ∷ (summary_rows results ++ ([] ∷ [])))
