-- ===== src/Tests/Forms.antt =====
-- The forms of the web client, and the tables that change their rows, at concrete values.
use message_pusher.Base.{
  ℕ, ◌≡◌, ◌≢◌, ◌⊎◌, refl, Bool, true, false, List, [], ◌∷◌, ◌++◌, map, filter, Option, none, some,
  is_empty, if◌then◌else◌,
}
use message_pusher.Text.{
  Text, txt, or_text, ◌==◌, includes, trim, drop_while, drop_end_while, is_space,
}
use message_pusher.Text.Laws.{ne_of_==}
use message_pusher.Web.Channel.{Inputs, origin_inputs, prepared}
use message_pusher.Web.Channel.Fields.{IsEven, prepared-IsEven}
use message_pusher.Web.Webhook
use message_pusher.Web.Webhook.{Hook}
use message_pusher.Web.Webhook.Kept.{submitted-loaded}
use message_pusher.Web.Editor.{
  Editor, opened, Event, image, switch_mode, choose, set_content, Parsed, an_object, is_object,
  sent, run, step, set_input_value, handle_json_mode_change,
}
use message_pusher.Web.Editor.Mode.{run-sent}
use message_pusher.Web.Items
use message_pusher.Web.Items.{nth}
use message_pusher.Web.Swipe.{
  Touch, paths, swiped, is_swipe, page_from, next_index, exact_nav_index,
}
use message_pusher.Web.Swipe.Back.{mirrored, swiped-mirrored}
use message_pusher.Web.Settings.{Options, Settings, smtp, submit}
use message_pusher.Web.Settings.Saved.{rules, is_wanted, call_of, submit-sent}
use message_pusher.Web.Items.Found.{run-find_ref}
use message_pusher.Web.Messages.{take_out}

abbrev any_json : Text → Bool
any_json s = true

abbrev group_inputs : Inputs
group_inputs = record origin_inputs { type_ = txt "group"; app_id = txt "a|b" }

prepared-IsEven_example : IsEven group_inputs (prepared any_json group_inputs)
prepared-IsEven_example = prepared-IsEven any_json group_inputs refl

abbrev old_hook : Hook
old_hook = record {
  name = txt "ci";
  extract_rule = txt "{}";
  construct_rule = txt "{}";
  channel = [];
  pre_script_enabled = false;
  pre_script = [];
}

abbrev default_script : Text
default_script = txt "main"

no_default : [] ≢ txt "default"
unfolding ◌==◌
no_default = ne_of_== [] (txt "default") refl

has_script : is_empty (trim (or_text old_hook.pre_script default_script)) ≡ false
unfolding trim drop_while drop_end_while is_space
has_script = refl

submitted-loaded_example :
    Webhook.submitted any_json (Webhook.loaded default_script old_hook)
    ≡ some (record old_hook { pre_script = or_text old_hook.pre_script default_script })
submitted-loaded_example =
    submitted-loaded default_script any_json old_hook no_default refl refl refl has_script

abbrev parsed : Text → Parsed
parsed s = an_object

abbrev typed : List Event
typed = set_content (txt " {}") ∷ switch_mode true ∷ choose image ∷ []

abbrev posted : Editor
posted = record (run (opened none) typed) { content = txt "{}" }

typed-sent : sent parsed (run (opened none) typed) ≡ some posted
unfolding sent run step set_input_value handle_json_mode_change trim drop_while drop_end_while
    is_space
typed-sent = refl

run-sent_example : (is_empty posted.msg_type ≡ true) ⊎ (is_object (parsed posted.content) ≡ true)
run-sent_example = run-sent parsed none typed posted typed-sent

abbrev item_with : ℕ → Items.Item
item_with id = record { id = id; field = λ _. []; deleted = false }

abbrev two_items : Items.Answer
two_items = record { success = true; items = item_with 4 ∷ item_with 7 ∷ []; item = item_with 7 }

abbrev any_le : Text → Text → Bool
any_le a b = true

-- The list is loaded and sorted, and the row with the id 7 is deleted.
abbrev clicked : List Items.Event
clicked = Items.answer 0 two_items ∷ Items.sort [] ∷ Items.act (Items.the_id 7) true ∷ []

clicked_waits :
    take_out 0 (Items.run any_le Items.mounted clicked).pending
    ≡ some (Items.manages (Items.the_id 7) true 2, [])
unfolding Items.run Items.step Items.answered Items.land Items.list_at Items.nth Items.has_item
    take_out Items.sorted_refs Items.sort_refs Items.insert_ref Items.reverse_refs
clicked_waits = refl

run-find_ref_example :
    (ref : ℕ) × (Items.find_ref 7
        (Items.run any_le Items.mounted clicked).items
        (Items.list_at 2 (Items.run any_le Items.mounted clicked).lists)
      ≡ some ref)
run-find_ref_example = run-find_ref any_le clicked 0 7 2 true [] clicked_waits

-- The account was changed, and the token is empty.
abbrev typed_options : Options
typed_options key =
    if key == txt "SMTPAccount"
    then some (txt "a@b")
    else if key == txt "SMTPToken"
    then some []
    else none

abbrev typed_settings : Settings
typed_settings = record {
  inputs = typed_options;
  origin_inputs = λ _. none;
  loading = false;
  sent = [];
}

abbrev accept_all : Text → Option Text → Bool
accept_all key value = true

submit-sent_example :
    (submit accept_all smtp typed_settings).sent
    ≡ [] ++ map (call_of typed_options) (filter (is_wanted (λ _. none) typed_options) (rules smtp))
submit-sent_example = submit-sent accept_all smtp typed_settings

abbrev finger_down : Touch
finger_down = record { x = 200; y = 50; time = 1000 }

abbrev finger_up : Touch
finger_up = record { x = 100; y = 60; time = 1200 }

-- From the webhooks a user who is no administrator gets to the settings.
skips_users : swiped false (txt "/webhook") 1 finger_down finger_up ≡ some (txt "/setting")
unfolding swiped is_swipe page_from next_index exact_nav_index nth ◌==◌
skips_users = refl

swiped-mirrored_example :
    (swiped false
        (txt "/setting")
        1
        (mirrored finger_down finger_up)
        (mirrored finger_up finger_down)
      ≡ some (txt "/webhook"))
    × (includes (paths false) (txt "/setting") ≡ true)
swiped-mirrored_example =
    swiped-mirrored false (txt "/webhook") (txt "/setting") 1 finger_down finger_up skips_users
