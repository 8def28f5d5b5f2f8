-- ===== src/Web/Editor/Mode.antt =====
-- The JSON mode of the editor and the type of its message.
use message_pusher.Base.{
  ◌≡◌, ◌⊎◌, refl, sym, ap, subst, ◌∙◌, Bool, true, false, not, ◌&&◌, List, [], ◌∷◌, Option, none,
  some, is_empty, inl, inr, Bool-cases, if_true, if_false,
}
use message_pusher.Text.{Text, txt, trim, or_text}
use message_pusher.Web.Editor.{
  Editor, opened, in_msg_type, set_input_value, MsgType, interactive, post, image, share_chat,
  share_user, audio, media, file, sticker, value_of, handle_json_mode_change, Parsed, is_object,
  sent, Event, set_title, set_description, set_content, set_url, set_channel, set_to, flip_async,
  switch_mode, choose, load_answer, send_answer, step, run,
}

-- The message has a type just in JSON mode.
abbrev pub HasMode : Editor → Type 0
HasMode e = e.json_mode ≡ not (is_empty e.msg_type)

value_of-full : (type_ : MsgType) → is_empty (value_of type_) ≡ false
value_of-full interactive = refl
value_of-full post = refl
value_of-full image = refl
value_of-full share_chat = refl
value_of-full share_user = refl
value_of-full audio = refl
value_of-full media = refl
value_of-full file = refl
value_of-full sticker = refl

or_text-full : (s : Text) → is_empty (or_text s (txt "interactive")) ≡ false
or_text-full [] = refl
or_text-full (c ∷ s) = refl

choose-HasMode : (type_ : MsgType) (e : Editor) → HasMode e → HasMode (step e (choose type_))
unfolding step set_input_value
choose-HasMode type_ e h = elim (Bool-cases e.json_mode) [
  | inl on ↦
      subst HasMode
        (sym (if_true (set_input_value in_msg_type (value_of type_) e) e e.json_mode on))
        (on ∙ sym (ap not (value_of-full type_)))
  | inr off ↦
      subst HasMode
        (sym (if_false (set_input_value in_msg_type (value_of type_) e) e e.json_mode off)) h
]

step-HasMode : (e : Editor) (event : Event) → HasMode e → HasMode (step e event)
unfolding step set_input_value handle_json_mode_change
step-HasMode e (set_title value) h = h
step-HasMode e (set_description value) h = h
step-HasMode e (set_content value) h = h
step-HasMode e (set_url value) h = h
step-HasMode e (set_channel value) h = h
step-HasMode e (set_to value) h = h
step-HasMode e flip_async h = h
step-HasMode e (switch_mode true) h = sym (ap not (or_text-full e.msg_type))
step-HasMode e (switch_mode false) h = refl
step-HasMode e (choose type_) h = choose-HasMode type_ e h
step-HasMode e (load_answer true data_) h = refl
step-HasMode e (load_answer false data_) h = h
step-HasMode e (send_answer is_editing false origin) h = h
step-HasMode e (send_answer true true origin) h = h
step-HasMode e (send_answer false true origin) h = refl

run-HasMode : (events : List Event) (e : Editor) → HasMode e → HasMode (run e events)
unfolding run
run-HasMode [] e h = h
run-HasMode (event ∷ events) e h = run-HasMode events (step e event) (step-HasMode e event h)

-- What is sent is a message without a type, or one whose content is an object.
abbrev IsChecked : (Text → Parsed) → Option Editor → Type 0
IsChecked parse none = Unit
IsChecked parse (some m) = (is_empty m.msg_type ≡ true) ⊎ (is_object (parse m.content) ≡ true)

not-eq-false : (b : Bool) → false ≡ not b → b ≡ true
not-eq-false true e = refl
not-eq-false false e = e

sent-IsChecked : (parse : Text → Parsed) (e : Editor) → HasMode e → IsChecked parse (sent parse e)
unfolding sent
sent-IsChecked parse e h = elim (Bool-cases (is_empty e.description && is_empty e.content)) [
  | inl blank ↦ rw (sent, blank) tt
  | inr filled ↦ elim (Bool-cases e.json_mode) [
    | inr off ↦ rw (sent, filled, off) (inl (not-eq-false (is_empty e.msg_type) (sym off ∙ h)))
    | inl on ↦ elim (Bool-cases (is_empty (trim e.content))) [
      | inl empty ↦ rw (sent, filled, on, empty) tt
      | inr full ↦ elim (Bool-cases (is_object (parse (trim e.content)))) [
        | inr wrong ↦ rw (sent, filled, on, full, wrong) tt
        | inl good ↦ rw (sent, filled, on, full, good) (inr good)
      ]
    ]
  ]
]

-- Whatever was done on the page: a message that is sent has no type, or its content is a JSON object.
pub run-sent :
    (parse : Text → Parsed) (stored : Option Text) (events : List Event) (m : Editor)
    → sent parse (run (opened stored) events) ≡ some m
    → (is_empty m.msg_type ≡ true) ⊎ (is_object (parse m.content) ≡ true)
run-sent parse stored events m s =
    subst (IsChecked parse) s
      (sent-IsChecked parse (run (opened stored) events) (run-HasMode events (opened stored) refl))
