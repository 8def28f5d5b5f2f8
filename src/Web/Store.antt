-- ===== src/Web/Store.antt =====
-- web/src/context/*/reducer.js, and the mode of web/src/helpers/theme.js.
use message_pusher.Base.{Bool, List, [], ◌∷◌, Option, none, if◌then◌else◌}
use message_pusher.Text.{Text, txt, ◌==◌, includes}

-- An action: its type, and the payload. `P` is what a payload is; `none` is undefined.
pub record Action (P : Type 0) : Type 0 where
  pub type_ : Text
  pub payload : Option P

-- context/Status/reducer.js, context/User/reducer.js and context/Theme/reducer.js, each with the one
-- field that its state has.
module _ {P : Type 0} where
  unfoldable pub reduce_status : Option P → Action P → Option P
  reduce_status status action =
      if action.type_ == txt "set"
      then action.payload
      else if action.type_ == txt "unset"
      then none
      else status

  unfoldable pub reduce_user : Option P → Action P → Option P
  reduce_user user action =
      if action.type_ == txt "login"
      then action.payload
      else if action.type_ == txt "logout"
      then none
      else user

  unfoldable pub reduce_theme : Option P → Action P → Option P
  reduce_theme mode action = if action.type_ == txt "set" then action.payload else mode

-- THEME_MODES
abbrev pub theme_modes : List Text
theme_modes = txt "light" ∷ txt "dark" ∷ txt "system" ∷ []

-- What `localStorage.getItem` comes to: it throws, or there is no item, or there is one.
pub data Stored : Type 0 where
  unavailable : Stored
  missing : Stored
  item : (value : Text) → Stored

unfoldable pub read_stored_mode : Stored → Text
read_stored_mode unavailable = txt "system"
read_stored_mode missing = txt "system"
read_stored_mode (item mode) = if includes theme_modes mode then mode else txt "system"

-- `resolveMode`, where the system prefers a dark theme or not
unfoldable pub resolve_mode : Bool → Text → Text
resolve_mode prefers_dark mode =
    if mode == txt "light"
    then mode
    else if mode == txt "dark"
    then mode
    else if prefers_dark
    then txt "dark"
    else txt "light"
