-- ===== src/Web/Webhook.antt =====
-- web/src/pages/Webhook/EditWebhook.jsx: the form of a webhook, from what the server has stored to what
-- it is sent.
pub mod Kept
use message_pusher.Base.{
  Bool, true, false, not, ◌&&◌, List, [], Option, none, some, is_empty, if◌then◌else◌,
}
use message_pusher.Text.{Text, txt, ◌==◌, trim, or_text}

-- `inputs`: a `pre_script` that is missing is the empty one, which the code treats alike.
pub record Hook : Type 0 where
  pub name : Text
  pub extract_rule : Text
  pub construct_rule : Text
  pub channel : Text
  pub pre_script_enabled : Bool
  pub pre_script : Text

-- `loadWebhook`: the inputs for an answer. `default_script` is DEFAULT_PRE_SCRIPT.
unfoldable pub loaded : Text → Hook → Hook
loaded default_script data_ = record data_ {
  channel = if is_empty data_.channel then txt "default" else data_.channel;
  pre_script = or_text data_.pre_script default_script;
}

-- `submit`: what is sent, if anything is. `parses` is `verifyJSON`.
unfoldable pub submitted : (Text → Bool) → Hook → Option Hook
submitted parses inputs =
    if is_empty inputs.name
    then none
    else if not (parses inputs.extract_rule)
    then none
    else if not (parses inputs.construct_rule)
    then none
    else if inputs.pre_script_enabled && is_empty (trim inputs.pre_script)
    then none
    else some
        record inputs { channel = if inputs.channel == txt "default" then [] else inputs.channel }
