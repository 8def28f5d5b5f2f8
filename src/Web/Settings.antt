-- ===== src/Web/Settings.antt =====
-- web/src/components/SystemSetting.jsx: the options of the server, changed one by one. An option that
-- the server does not list is `none`.
pub mod Saved
use message_pusher.Base.{
  Bool, true, false, not, ◌&&◌, ◌||◌, List, [], ◌∷◌, ◌++◌, Option, none, some, is_empty,
  if◌then◌else◌,
}
use message_pusher.Text.{Text, txt, ◌==◌, includes, starts_with, ends_with}
use message_pusher.Web.Channel.{without_last}

abbrev pub Options : Type 0
Options = Text → Option Text

unfoldable pub set_option : Text → Option Text → Options → Options
set_option key value options = λ k. if k == key then value else options k

-- The calls `PUT /api/option/` are kept in order.
pub record Settings : Type 0 where
  pub inputs : Options
  pub origin_inputs : Options
  pub loading : Bool
  pub sent : List (Text × Option Text)

-- `getOptions`: the list of the server.
unfoldable pub options_of : List (Text × Text) → Options → Options
options_of [] options = options
options_of ((key, value) ∷ items) options = options_of items (set_option key (some value) options)

unfoldable pub get_options : List (Text × Text) → Settings → Settings
get_options data_ s =
    let new = options_of data_ (λ _. none) in record s { inputs = new; origin_inputs = new }

-- `a === b` for options
unfoldable pub same_option : Option Text → Option Text → Bool
same_option none none = true
same_option none (some _) = false
same_option (some _) none = false
same_option (some a) (some b) = a == b

abbrev pub toggles : List Text
toggles =
    txt "PasswordLoginEnabled"
    ∷ txt "PasswordRegisterEnabled"
    ∷ txt "EmailVerificationEnabled"
    ∷ txt "GitHubOAuthEnabled"
    ∷ txt "WeChatAuthEnabled"
    ∷ txt "TurnstileCheckEnabled"
    ∷ txt "RegisterEnabled"
    ∷ txt "MessagePersistenceEnabled"
    ∷ txt "MessageRenderEnabled"
    ∷ []

unfoldable pub option_value : Options → Text → Option Text → Option Text
option_value inputs key value =
    if includes toggles key
    then (if same_option (inputs key) (some (txt "true"))
        then some (txt "false")
        else some (txt "true"))
    else value

-- `removeTrailingSlash` of web/src/helpers/utils.js
unfoldable pub remove_trailing_slash : Text → Text
remove_trailing_slash url = if ends_with url (txt "/") then without_last url else url

-- An address that is undefined has not changed, and is not sent.
abbrev pub address : Option Text → Option Text
address none = none
address (some url) = some (remove_trailing_slash url)

-- Options that are typed and saved by a button; every other change is saved at once.
abbrev pub typed_keys : List Text
typed_keys =
    txt "Notice"
    ∷ txt "ServerAddress"
    ∷ txt "GitHubClientId"
    ∷ txt "GitHubClientSecret"
    ∷ txt "WeChatServerAddress"
    ∷ txt "WeChatServerToken"
    ∷ txt "WeChatAccountQRCodeImageURL"
    ∷ txt "TurnstileSiteKey"
    ∷ txt "TurnstileSecretKey"
    ∷ []

unfoldable pub is_typed : Text → Bool
is_typed name = includes typed_keys name || starts_with name (txt "SMTP")

-- The buttons that save several options.
pub data Group : Type 0 where
  smtp wechat github_oauth turnstile : Group

-- `accepts` is what the server answers to an option; `inputs` are those of the render.
module _ (accepts : Text → Option Text → Bool) where
  unfoldable pub update_option : Options → Text → Option Text → Settings → Settings
  update_option inputs key value s =
      let new = option_value inputs key value in
      record s {
        inputs = if accepts key new then set_option key new s.inputs else s.inputs;
        loading = false;
        sent = s.sent ++ ((key, new) ∷ []);
      }

  unfoldable pub handle_input_change : Text → Text → Settings → Settings
  handle_input_change name value s =
      if is_typed name
      then record s { inputs = set_option name (some value) s.inputs }
      else update_option s.inputs name (some value) s

  unfoldable pub submit_server_address : Settings → Settings
  submit_server_address s =
      update_option s.inputs (txt "ServerAddress") (address (s.inputs (txt "ServerAddress"))) s

  -- `if (originInputs[key] !== inputs[key]) await updateOption(key, …)`
  unfoldable pub save_changed :
      Options → Options → Text → (Option Text → Option Text) → Settings → Settings
  save_changed origin inputs key f s =
      if not (same_option (origin key) (inputs key))
      then update_option inputs key (f (inputs key)) s
      else s

  -- the same with `&& inputs[key] !== ''`
  unfoldable pub save_filled : Options → Options → Text → Settings → Settings
  save_filled origin inputs key s =
      if not (same_option (origin key) (inputs key)) && not (same_option (inputs key) (some []))
      then update_option inputs key (inputs key) s
      else s

  -- Each button with the inputs of its render.
  unfoldable pub submit_smtp : Settings → Settings
  submit_smtp s =
      let s1 = save_changed s.origin_inputs s.inputs (txt "SMTPServer") (λ v. v) s in
      let s2 = save_changed s.origin_inputs s.inputs (txt "SMTPAccount") (λ v. v) s1 in
      let s3 = save_filled s.origin_inputs s.inputs (txt "SMTPPort") s2 in
      save_filled s.origin_inputs s.inputs (txt "SMTPToken") s3

  unfoldable pub submit_wechat : Settings → Settings
  submit_wechat s =
      let s1 = save_changed s.origin_inputs s.inputs (txt "WeChatServerAddress") address s in
      let s2 =
        save_changed s.origin_inputs s.inputs (txt "WeChatAccountQRCodeImageURL") (λ v. v) s1 in
      save_filled s.origin_inputs s.inputs (txt "WeChatServerToken") s2

  unfoldable pub submit_github_oauth : Settings → Settings
  submit_github_oauth s =
      let s1 = save_changed s.origin_inputs s.inputs (txt "GitHubClientId") (λ v. v) s in
      save_filled s.origin_inputs s.inputs (txt "GitHubClientSecret") s1

  unfoldable pub submit_turnstile : Settings → Settings
  submit_turnstile s =
      let s1 = save_changed s.origin_inputs s.inputs (txt "TurnstileSiteKey") (λ v. v) s in
      save_filled s.origin_inputs s.inputs (txt "TurnstileSecretKey") s1

  unfoldable pub submit : Group → Settings → Settings
  submit smtp s = submit_smtp s
  submit wechat s = submit_wechat s
  submit github_oauth s = submit_github_oauth s
  submit turnstile s = submit_turnstile s
