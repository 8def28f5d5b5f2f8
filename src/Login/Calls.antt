-- ===== src/Login/Calls.antt =====
-- The calls of docker that login.mjs makes.
use message_pusher.Base.{List}
use message_pusher.Text.{Text, Env}
use message_pusher.Config.Images.{Registry}
use message_pusher.State.{State}
use message_pusher.Login.{Client, Step, called, call_of}

module _ (client : Client) (env : Env) where
  abbrev pub step_of : Registry → Step
  step_of r = called (call_of env r)
