-- ===== src/Web/Editor.antt =====
-- web/src/pages/Message/EditMessage.jsx: the editor of a message, with its JSON mode.
pub mod Mode
use message_pusher.Base.{
  Bool, true, false, not, ◌&&◌, List, [], ◌∷◌, Option, none, some, is_empty, if◌then◌else◌,
}
use message_pusher.Text.{Text, txt, trim, or_text}

-- `inputs`, and what the page keeps with them. `channel` is where `localStorage` starts.
pub record Editor : Type 0 where
  pub title : Text
  pub description : Text
  pub content : Text
  pub url : Text
  pub channel : Text
  pub to : Text
  pub async : Bool
  pub msg_type : Text
  pub json_mode : Bool
  -- `localStorage.getItem('editor_channel')`
  pub stored_channel : Option Text

abbrev pub or_empty : Option Text → Text
or_empty none = []
or_empty (some value) = value

-- The inputs are `originInputs`: the channel is what was stored when they were last made.
abbrev pub emptied : Text → Option Text → Editor
emptied channel stored = record {
  title = [];
  description = [];
  content = [];
  url = [];
  channel = channel;
  to = [];
  async = false;
  msg_type = [];
  json_mode = false;
  stored_channel = stored;
}

-- The page when it is opened.
abbrev pub opened : Option Text → Editor
opened stored = emptied (or_empty stored) stored

-- The text fields of the form.
pub data Field : Type 0 where
  in_title in_description in_content in_url in_channel in_to in_msg_type : Field

unfoldable pub set_input_value : Field → Text → Editor → Editor
set_input_value in_title value e = record e { title = value }
set_input_value in_description value e = record e { description = value }
set_input_value in_content value e = record e { content = value }
set_input_value in_url value e = record e { url = value }
set_input_value in_channel value e = record e { channel = value; stored_channel = some value }
set_input_value in_to value e = record e { to = value }
set_input_value in_msg_type value e = record e { msg_type = value }

-- The values of JSON_MSG_TYPE_OPTIONS.
pub data MsgType : Type 0 where
  interactive post image share_chat share_user audio media file sticker : MsgType

abbrev pub value_of : MsgType → Text
value_of interactive = txt "interactive"
value_of post = txt "post"
value_of image = txt "image"
value_of share_chat = txt "share_chat"
value_of share_user = txt "share_user"
value_of audio = txt "audio"
value_of media = txt "media"
value_of file = txt "file"
value_of sticker = txt "sticker"

unfoldable pub handle_json_mode_change : Bool → Editor → Editor
handle_json_mode_change checked e =
    set_input_value in_msg_type (if checked then or_text e.msg_type (txt "interactive") else [])
      (record e { json_mode = checked })

-- `loadMessage`: what the server has takes the place of the inputs.
abbrev pub load_message : Editor → Editor → Editor
load_message data_ e = record data_ {
  json_mode = not (is_empty data_.msg_type);
  stored_channel = e.stored_channel;
}

-- What `JSON.parse` makes of a text: it throws, or gives a value that is an object and no array, or
-- another value.
pub data Parsed : Type 0 where
  no_json other_value an_object : Parsed

abbrev pub is_object : Parsed → Bool
is_object an_object = true
is_object _ = false

-- `send`: the inputs that are posted, with the content as it is then.
module _ (parse : Text → Parsed) where
  unfoldable pub sent : Editor → Option Editor
  sent e =
      if is_empty e.description && is_empty e.content
      then none
      else if not e.json_mode
      then some e
      else if is_empty (trim e.content)
      then none
      else if not (is_object (parse (trim e.content)))
      then none
      else some record e { content = trim e.content }

-- What happens on the page. The type is chosen from a list that is there in JSON mode only.
pub data Event : Type 0 where
  set_title set_description set_content set_url set_channel set_to : (value : Text) → Event
  flip_async : Event
  switch_mode : (checked : Bool) → Event
  choose : (type_ : MsgType) → Event
  load_answer : (success : Bool) (data_ : Editor) → Event
  -- The answer to `send`; `origin` is the channel of `originInputs`.
  send_answer : (is_editing success : Bool) (origin : Text) → Event

unfoldable pub step : Editor → Event → Editor
step e (set_title value) = set_input_value in_title value e
step e (set_description value) = set_input_value in_description value e
step e (set_content value) = set_input_value in_content value e
step e (set_url value) = set_input_value in_url value e
step e (set_channel value) = set_input_value in_channel value e
step e (set_to value) = set_input_value in_to value e
step e flip_async = record e { async = not e.async }
step e (switch_mode checked) = handle_json_mode_change checked e
step e (choose type_) = if e.json_mode then set_input_value in_msg_type (value_of type_) e else e
step e (load_answer success data_) = if success then load_message data_ e else e
step e (send_answer is_editing success origin) =
    if not success then e else if is_editing then e else emptied origin e.stored_channel

unfoldable pub run : Editor → List Event → Editor
run e [] = e
run e (event ∷ events) = run (step e event) events
