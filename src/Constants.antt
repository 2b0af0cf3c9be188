-- ===== src/Constants.antt =====
-- The constants of python-client/src/hammerspoon_macapi/constants.py that the model uses.
use macpony.Prelude.{ℕ, ◌*◌}

-- The record terminator, `b"\n"`.
abbrev pub newline_byte : ℕ
newline_byte = 10

-- `MAX_LINE_BYTES`
abbrev pub max_line_bytes : ℕ
max_line_bytes = 16 * 1024 * 1024

-- `DEFAULT_EVENT_QUEUE_SIZE`
abbrev pub default_event_queue_size : ℕ
default_event_queue_size = 256
