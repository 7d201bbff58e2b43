-- ===== src/Realtime/Events.antt =====
-- internal/realtime/events.go: events, and the fields that the server reads from them.
-- JSON is a parameter (`Codec`); `Json` is what `encoding/json` decodes an `interface{}` into. Its
-- numbers are `float64`, which the program reads only through `int(…)`, so a number is that integer.
use fileflow.Common.{
  Bool, Bytes, Option, [], codes, false, if◌then◌else◌, negsuc, none, some, true, ℕ, ℤ, ◌*◌, ◌/◌,
  ◌==◌, ◌≡◌, bytes_key,
}

mutual
  pub data Json : Type 0 where
    null : Json
    boolean : Bool → Json
    number : ℤ → Json
    text : Bytes → Json
    array : Items → Json
    object : Fields → Json

  pub data Items : Type 0 where
    nil : Items
    item : Json → Items → Items

  -- A decoded object is a map: each name stands in it once.
  pub data Fields : Type 0 where
    end : Fields
    field : Bytes → Json → Fields → Fields

-- What an event carries: a decoded value, or one of the structs of this file, of which the server
-- sends only `presence` and `send_fail`.
pub data Value : Type 0 where
  decoded : Json → Value
  presence : (online required : ℕ) → Value
  msg_start_value : (msg_id : Bytes) → Value
  para_start_value : (msg_id : Bytes) (index : ℤ) → Value
  para_chunk_value : (msg_id : Bytes) (index : ℤ) (chunk : Bytes) → Value
  para_end_value : (msg_id : Bytes) (index : ℤ) → Value
  msg_end_value : (msg_id : Bytes) → Value
  ack_value : (msg_id : Bytes) → Value
  send_fail : (msg_id reason : Bytes) → Value

pub record Event : Type 0 where
  pub kind : Bytes
  pub value : Value
  pub timestamp : ℕ

-- `json.Marshal` and `json.Unmarshal` at `Event`.
pub record Codec : Type 0 where
  pub marshal : Event → Option Bytes
  pub unmarshal : Bytes → Option Event

-- `Event.Marshal` and `ParseEvent` pass the error of the library on; here an error is `none`.
abbrev pub marshal_event : Codec → Event → Option Bytes
marshal_event codec e = codec.marshal e

abbrev pub parse_event : Codec → Bytes → Option Event
parse_event codec d = codec.unmarshal d

-- Marshalling a struct of strings and integers does not fail.
pub record CodecLaws (c : Codec) : Type 0 where
  pub marshal_send_fail :
      (kind id reason : Bytes) (ts : ℕ)
      → (d : Bytes) × (c.marshal
            (record { kind = kind; value = send_fail id reason; timestamp = ts })
          ≡ some d)
  pub marshal_presence :
      (kind : Bytes) (online required ts : ℕ)
      → (d : Bytes) × (c.marshal
            (record { kind = kind; value = presence online required; timestamp = ts })
          ≡ some d)

abbrev pub event_presence : Bytes
event_presence = codes "presence"

abbrev pub event_msg_start : Bytes
event_msg_start = codes "msg_start"

abbrev pub event_para_start : Bytes
event_para_start = codes "para_start"

abbrev pub event_para_chunk : Bytes
event_para_chunk = codes "para_chunk"

abbrev pub event_para_end : Bytes
event_para_end = codes "para_end"

abbrev pub event_msg_end : Bytes
event_msg_end = codes "msg_end"

abbrev pub event_ack : Bytes
event_ack = codes "ack"

abbrev pub event_send_fail : Bytes
event_send_fail = codes "send_fail"

abbrev pub max_chunk_size : ℕ
max_chunk_size = 4 * 1024

abbrev pub max_message_size : ℕ
max_message_size = 256 * 1024

abbrev pub max_paragraphs : ℕ
max_paragraphs = 512

-- Time is read in nanoseconds; `UnixMilli` counts whole milliseconds.
abbrev pub new_event : Bytes → Value → ℕ → Event
new_event kind value now = record { kind = kind; value = value; timestamp = now / 1_000_000 }

unfoldable pub find_field : Bytes → Fields → Option Json
find_field k end = none
find_field k (field j v fs) = if j == k then some v else find_field k fs

abbrev is_nil : Value → Bool
is_nil (decoded null) = true
is_nil _ = false

-- `e.Value.(map[string]interface{})`
abbrev as_map : Value → Option Fields
as_map (decoded (object fs)) = some fs
as_map _ = none

-- `x, _ := v.(string)`, where a missing key is a nil value.
abbrev as_string : Option Json → Bytes
as_string (some (text s)) = s
as_string _ = []

-- `v.(float64)` and `int(…)`, with the source's default.
abbrev as_index : Option Json → ℤ
as_index (some (number n)) = n
as_index _ = negsuc 0

abbrev string_in : Bytes → Option Fields → Bytes
string_in k none = []
string_in k (some fs) = as_string (find_field k fs)

abbrev index_in : Bytes → Option Fields → ℤ
index_in k none = negsuc 0
index_in k (some fs) = as_index (find_field k fs)

unfoldable pub get_msg_id : Event → Bytes
get_msg_id e = if is_nil e.value then [] else string_in (codes "msgId") (as_map e.value)

unfoldable pub get_para_index : Event → ℤ
get_para_index e = if is_nil e.value then negsuc 0 else index_in (codes "i") (as_map e.value)

unfoldable pub get_chunk_text : Event → Bytes
get_chunk_text e = if is_nil e.value then [] else string_in (codes "s") (as_map e.value)
