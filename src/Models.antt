-- ===== src/Models.antt =====
-- The response models of python-client/src/hammerspoon_macapi/models.py: the annotated fields of
-- each class, in order.
use macpony.Prelude.{true, false, [], ◌∷◌}
use macpony.Json.{null, bool, str, arr, obj, nil, empty}
use macpony.Pydantic.{
  Annotation, any_value, str_type, int_type, float_type, bool_type, literal_str, optional, list_of,
  dict_of, either, model, Decls, done, required, default,
}

-- A subclass of `Model`: its "before" validator runs, and unknown fields are ignored.
abbrev pub instance_of : Decls → Annotation
instance_of ds = model true false ds

abbrev pub frame : Decls
frame =
    required "x" float_type
      (required "y" float_type (required "w" float_type (required "h" float_type done)))

abbrev pub application_info : Decls
application_info = required "name" str_type (
    default "bundle_id" (optional str_type) null (
      required "pid" int_type (
        default "hidden" bool_type (bool false) (default "frontmost" bool_type (bool false) done))))

abbrev pub window_info : Decls
window_info = required "id" int_type (
    default "title" str_type (str "") (
      default "app" str_type (str "") (
        default "bundle_id" (optional str_type) null (
          default "focused" bool_type (bool false) (
            default "visible" bool_type (bool true) (
              default "minimized" bool_type (bool false) (
                default "fullscreen" bool_type (bool false)
                  (required "frame" (instance_of frame) done))))))))

abbrev pub screen_info : Decls
screen_info = required "id" str_type (
    default "uuid" (optional str_type) null (
      default "name" str_type (str "") (
        default "primary" bool_type (bool false) (
          required "frame" (instance_of frame)
            (default "brightness" (optional float_type) null done)))))

abbrev pub audio_output_info : Decls
audio_output_info =
    required "name" str_type
      (default "volume" (optional float_type) null (default "muted" (optional bool_type) null done))

abbrev pub audio_input_info : Decls
audio_input_info = required "name" str_type done

abbrev pub audio_info : Decls
audio_info =
    default "output" (optional (instance_of audio_output_info)) null
      (default "input" (optional (instance_of audio_input_info)) null done)

abbrev pub os_info : Decls
os_info = required "name" str_type (required "version" str_type done)

abbrev pub system_info : Decls
system_info =
    required "hostname" str_type
      (required "os" (instance_of os_info) (default "addresses" (list_of str_type) (arr nil) done))

abbrev pub system_status : Decls
system_status = default "locked" bool_type (bool false) (
    default "screensaver" bool_type (bool false) (
      default "sleeping" bool_type (bool false) (
        default "power_source" (optional str_type) null
          (default "battery_percent" (optional float_type) null done))))

abbrev pub capabilities : Decls
capabilities = required "protocol_version" int_type (
    required "server_version" str_type (
      required "transport" (literal_str ("unix-domain-socket" ∷ [])) (
        required "framing" (literal_str ("ndjson" ∷ [])) (
          required "authentication" (literal_str ("none" ∷ [])) (
            required "security" (literal_str ("filesystem-permissions" ∷ [])) (
              required "single_client" bool_type (
                default "methods" (list_of str_type) (arr nil) (
                  default "events" (list_of str_type) (arr nil)
                    (default "features" (dict_of bool_type) (obj empty) done)))))))))

abbrev pub clipboard_text : Decls
clipboard_text = default "text" (optional str_type) null done

abbrev pub network_interface : Decls
network_interface = required "name" str_type (default "addresses" (list_of str_type) (arr nil) done)

abbrev pub network_info : Decls
network_info =
    default "interfaces" (list_of (instance_of network_interface)) (arr nil)
      (default "wifi" (optional (dict_of any_value)) null done)

abbrev pub inline_screenshot : Decls
inline_screenshot = required "mode" (literal_str ("inline" ∷ [])) (
    required "mime" (literal_str ("image/png" ∷ [])) (
      required "encoding" (literal_str ("base64" ∷ [])) (
        required "width" int_type (required "height" int_type (required "content" str_type done)))))

abbrev pub file_screenshot : Decls
file_screenshot = required "mode" (literal_str ("file" ∷ [])) (
    required "mime" (literal_str ("image/png" ∷ []))
      (required "path" str_type (required "created_at" float_type done)))

-- `Screenshot`
abbrev pub screenshot : Annotation
screenshot = either (instance_of inline_screenshot) (instance_of file_screenshot)
