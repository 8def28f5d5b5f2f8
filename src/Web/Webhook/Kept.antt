-- ===== src/Web/Webhook/Kept.antt =====
-- A webhook that is loaded and saved again.
use message_pusher.Base.{
  ◌≡◌, ◌≢◌, refl, ap, Bool, true, false, ◌&&◌, [], ◌∷◌, some, is_empty, if_false, if◌then◌else◌,
}
use message_pusher.Text.{Text, txt, ◌==◌, trim, or_text}
use message_pusher.Text.Laws.{==_false}
use message_pusher.Web.Webhook.{Hook, loaded, submitted}

-- The channel on the form and back.
channel_back :
    (channel : Text)
    → channel ≢ txt "default"
    → (if (if is_empty channel then txt "default" else channel) == txt "default"
        then []
        else (if is_empty channel then txt "default" else channel))
      ≡ channel
unfolding ◌==◌
channel_back [] other = refl
channel_back (c ∷ s) other =
    if_false [] (c ∷ s) ((c ∷ s) == txt "default") (==_false (c ∷ s) (txt "default") other)

and_false : (b : Bool) → b && false ≡ false
and_false true = refl
and_false false = refl

-- A webhook with a name and rules that are JSON, whose script is not blank, or is missing while
-- DEFAULT_PRE_SCRIPT is not blank: loaded and saved, it keeps its fields, but for a missing script,
-- which becomes DEFAULT_PRE_SCRIPT. Its channel is not the word "default".
pub submitted-loaded :
    (default_script : Text) (parses : Text → Bool) (hook : Hook)
    → hook.channel ≢ txt "default"
    → is_empty hook.name ≡ false
    → parses hook.extract_rule ≡ true
    → parses hook.construct_rule ≡ true
    → is_empty (trim (or_text hook.pre_script default_script)) ≡ false
    → submitted parses (loaded default_script hook)
      ≡ some (record hook { pre_script = or_text hook.pre_script default_script })
unfolding submitted loaded
submitted-loaded default_script parses hook other named extract construct script =
    let disabled = and_false hook.pre_script_enabled in
    rw (named, extract, construct, script, disabled)
      (ap
        (λ channel.
          some (record hook {
            channel = channel;
            pre_script = or_text hook.pre_script default_script;
          }))
        (channel_back hook.channel other))
