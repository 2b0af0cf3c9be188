-- ===== src/Tests/Client.antt =====
-- Servers and arguments at which the theorems on `MacApi` and its namespaces are applied.
use macpony.Prelude.{
  Bool, refl, false, eq_iff, arith, ◌≡◌, ◌↔◌, ◌⊎◌, true, none, some, [], ◌∷◌, All,
}
use macpony.Prelude.Dict.{is_member}
use macpony.Prelude.Int.{pos}
use macpony.Errors.{Exception, Outcome, returned, raised, builtin, value_error}
use macpony.Json.{Float, finite}
use macpony.Connection.{connected, disconnected}
use macpony.EventsClient.{initial}
use macpony.Client.{Capabilities, MacApi, create, connect, finish_connect}
use macpony.Client.Context.{IsIdle, with_client, with_client-IsIdle}
use macpony.Client.Handshake.{IsAccepted, finish_connect-IsAccepted}
use macpony.Namespaces.Catalog.{Arguments, IsServed, called, called-IsServed}
use macpony.Server.Parameters.Arguments.{TypedArguments, IsTyped, typed_calls}
use macpony.Server.Parameters.Typed.{Passes, typed_calls-Passes}
use macpony.Tests.Calls.{busy}

abbrev pub server : Capabilities
server = record {
  version = pos 1;
  server_version = "0.1.0";
  single_client = true;
  methods = [];
  events = [];
  features = [];
}

abbrev remembering : MacApi
remembering = record {
  capabilities = none;
  events = initial 256;
  remembered = record { event = "wifi.changed"; include_data = true } ∷ [];
  connection = busy;
}

finish_connect-IsAccepted_example :
    let (outcome, api') =
      finish_connect (returned server) (raised (builtin value_error)) remembering in
    ((api'.connection.state ≡ connected)
      ↔ IsAccepted (returned server) (raised (builtin value_error)) remembering)
    × ((outcome ≡ returned true)
        ⊎ ((e : Exception) × (outcome ≡ raised e)
            × (api'.connection.state ≡ disconnected)
            × (api'.connection.writer ≡ none)))
finish_connect-IsAccepted_example =
    finish_connect-IsAccepted (returned server) (raised (builtin value_error)) remembering

-- 50.5
abbrev half : Float
half = finite (pos 101) 1

abbrev arguments : Arguments
arguments = record {
  bundle_id = "com.apple.Safari";
  text = "left";
  modifiers = "cmd" ∷ [];
  screen_id = some "1";
  window_id = pos 12;
  frame = record { x = half; y = half; w = half; h = half };
  enabled = true;
  x = half;
  y = half;
  subscriptions = [];
}

called-IsServed_example : All IsServed (called arguments)
called-IsServed_example = called-IsServed arguments

abbrev typed_arguments : TypedArguments
typed_arguments = record {
  text = "com.apple.Safari";
  screen_id = none;
  position = "center";
  modifiers = "cmd" ∷ "shift" ∷ [];
  button = "middle";
  mode = "file";
  window_id = pos 12;
  frame = record { x = half; y = half; w = half; h = half };
  is_on = false;
  x = half;
  y = half;
}

typed_arguments-IsTyped : IsTyped typed_arguments
unfolding is_member
typed_arguments-IsTyped = record {
  some_text = λ e. ground (arith, eq_iff "com.apple.Safari" "");
  typed_position = refl;
  typed_modifiers = (refl, (refl, tt));
  typed_button = refl;
  typed_mode = refl;
}

typed_calls-Passes_example : All Passes (typed_calls typed_arguments)
typed_calls-Passes_example = typed_calls-Passes typed_arguments typed_arguments-IsTyped

-- A body that raises in a client that was created and connected.
abbrev breaks : MacApi → Outcome Bool × MacApi
breaks api = (raised (builtin value_error), api)

created-IsIdle : IsIdle (create true 2).connection
created-IsIdle = record { state = refl; writer = refl; reader = refl; pending = refl }

with_client-IsIdle_example :
    let (outcome, api) = with_client true (returned server) (returned []) breaks (create true 2) in
    IsIdle api.connection × (outcome ≡ raised (builtin value_error))
unfolding connect
with_client-IsIdle_example =
    with_client-IsIdle true (returned server) (returned []) breaks (create true 2) created-IsIdle
