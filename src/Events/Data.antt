-- ===== src/Events/Data.antt =====
-- The data classes of python-client/src/hammerspoon_macapi/events.py: their annotated fields.
use macpony.Prelude.{[], ◌∷◌}
use macpony.Json.{null, arr, nil}
use macpony.Pydantic.{
  Annotation, any_value, str_type, int_type, float_type, bool_type, literal_str, literal_int,
  optional, list_of, dict_of, Decls, done, required, default, extend,
}
use macpony.Models.{instance_of, frame}

-- `EventBase[EventName]`
abbrev pub event_base : Annotation → Decls
event_base event_name = required "v" (literal_int 1) (
    required "type" (literal_str ("event" ∷ [])) (
      required "seq" int_type (required "event" event_name (required "timestamp" float_type done))))

abbrev pub application_data : Decls
application_data =
    default "bundle_id" (optional str_type) null
      (required "name" str_type (default "pid" (optional int_type) null done))

abbrev pub application_terminated_data : Decls
application_terminated_data = application_data

abbrev pub application_hidden_data : Decls
application_hidden_data = application_data

abbrev pub application_unhidden_data : Decls
application_unhidden_data = application_data

abbrev pub window_data : Decls
window_data = required "window_id" int_type (
    default "title" (optional str_type) null (
      default "bundle_id" (optional str_type) null
        (default "frame" (optional (instance_of frame)) null done)))

abbrev pub window_state_data : Decls
window_state_data = extend window_data (default "enabled" (optional bool_type) null done)

abbrev pub screen_data : Decls
screen_data =
    required "screen_id" str_type
      (default "uuid" (optional str_type) null (default "name" (optional str_type) null done))

abbrev pub screen_changed_data : Decls
screen_changed_data = default "screens" (list_of (dict_of any_value)) (arr nil) done

abbrev pub system_event_data : Decls
system_event_data = default "reason" (optional str_type) null done

abbrev pub clipboard_changed_data : Decls
clipboard_changed_data = default "text" (optional str_type) null done

abbrev pub wifi_changed_data : Decls
wifi_changed_data =
    default "interface" (optional str_type) null (default "ssid" (optional str_type) null done)

abbrev pub audio_changed_data : Decls
audio_changed_data = default "event" (optional str_type) null done

abbrev pub power_source_changed_data : Decls
power_source_changed_data = default "source" (optional str_type) null done

abbrev pub power_battery_changed_data : Decls
power_battery_changed_data =
    default "percentage" (optional float_type) null (default "source" (optional str_type) null done)
