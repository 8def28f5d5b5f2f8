-- ===== src/Web/Channel.antt =====
-- web/src/pages/Channel/EditChannel.jsx: the form of a channel, from what the server has stored to what
-- it is sent. Fields of the server's object that the form does not name are passed on as they are, and
-- have no part in the model.
pub mod Fields
use message_pusher.Base.{
  ℕ, zero, suc, ◌-◌, Bool, true, false, not, List, [], ◌∷◌, ◌++◌, Option, none, some, length,
  is_empty, eqb, if◌then◌else◌,
}
use message_pusher.Text.{Text, txt, ◌==◌, split_on, ends_with}

-- `inputs`: the two fields of a corp_app are undefined for a channel of another type that was loaded.
pub record Inputs : Type 0 where
  pub type_ : Text
  pub name : Text
  pub description : Text
  pub secret : Text
  pub app_id : Text
  pub account_id : Text
  pub url : Text
  pub other : Text
  pub corp_id : Option Text
  pub agent_id : Option Text
  pub token : Text

-- `originInputs`
abbrev pub origin_inputs : Inputs
origin_inputs = record {
  type_ = txt "none";
  name = [];
  description = [];
  secret = [];
  app_id = [];
  account_id = [];
  url = [];
  other = [];
  corp_id = some [];
  agent_id = some [];
  token = [];
}

abbrev pub is_bar : ℕ → Bool
is_bar c = eqb c b'|'

-- `s.split('|')`
abbrev pub pieces : Text → List Text
pieces = split_on is_bar

abbrev pub first_piece : List Text → Option Text
first_piece [] = none
first_piece (x ∷ xs) = some x

abbrev pub second_piece : List Text → Option Text
second_piece [] = none
second_piece (x ∷ xs) = first_piece xs

-- `loadChannel`: the inputs for an answer.
unfoldable pub loaded : Inputs → Inputs
loaded data_ =
    if data_.type_ == txt "corp_app"
    then record data_ {
      corp_id = first_piece (pieces data_.app_id);
      agent_id = second_piece (pieces data_.app_id);
    }
    else data_

-- The cases of the switch of `submit`.
pub data Kind : Type 0 where
  corp_app bark one_bot group custom plain : Kind

unfoldable pub kind_of : Text → Kind
kind_of type_ =
    if type_ == txt "corp_app"
    then corp_app
    else if type_ == txt "bark"
    then bark
    else if type_ == txt "one_bot"
    then one_bot
    else if type_ == txt "group"
    then group
    else if type_ == txt "custom"
    then custom
    else plain

-- `${value}`
abbrev pub shown_value : Option Text → Text
shown_value none = txt "undefined"
shown_value (some value) = value

-- `s.slice(0, -1)`
unfoldable pub without_last : Text → Text
without_last [] = []
without_last (c ∷ []) = []
without_last (c ∷ d ∷ s) = c ∷ without_last (d ∷ s)

-- `s += '|'`, n times
abbrev pub add_bars : ℕ → Text → Text
add_bars zero s = s
add_bars (suc n) s = add_bars n (s ++ txt "|")

-- What the switch comes to: a message and nothing is sent, or the inputs to send.
pub data Prepared : Type 0 where
  counts_differ : Prepared
  bad_json : Prepared
  ready : (inputs : Inputs) → Prepared

-- `parses` is that `JSON.parse` does not throw.
module _ (parses : Text → Bool) where
  unfoldable pub prepared_as : Kind → Inputs → Prepared
  prepared_as corp_app inputs = ready record inputs {
    app_id = shown_value inputs.corp_id ++ txt "|" ++ shown_value inputs.agent_id;
  }
  prepared_as bark inputs =
      if is_empty inputs.url
      then ready record inputs { url = txt "https://api.day.app" }
      else ready inputs
  prepared_as one_bot inputs =
      if ends_with inputs.url (txt "/")
      then ready record inputs { url = without_last inputs.url }
      else ready inputs
  prepared_as group inputs =
      let channels = length (pieces inputs.app_id) in
      let targets = length (pieces inputs.account_id) in
      if is_empty inputs.account_id
      then ready record inputs { account_id = add_bars (channels - 1) inputs.account_id }
      else if not (eqb channels targets)
      then counts_differ
      else ready inputs
  prepared_as custom inputs = if not (parses inputs.other) then bad_json else ready inputs
  prepared_as plain inputs = ready inputs

  unfoldable pub prepared : Inputs → Prepared
  prepared inputs = prepared_as (kind_of inputs.type_) inputs

  -- What `submit` sends, if it sends anything.
  unfoldable pub submitted : Inputs → Option Inputs
  submitted inputs = if is_empty inputs.name then none else elim (prepared inputs) [
    | counts_differ ↦ none
    | bad_json ↦ none
    | ready sent ↦ some sent
  ]

-- The inputs after an answer to what was sent: a new channel empties the form.
unfoldable pub after_submit : Bool → Bool → Inputs → Inputs
after_submit is_editing success inputs =
    if success then (if is_editing then inputs else origin_inputs) else inputs
