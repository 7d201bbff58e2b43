-- ===== src/Realtime/Client.antt =====
-- internal/realtime/client.go: what the server keeps for a connection, and what it does with each
-- message that comes in. The WebSocket itself (frames, deadlines, pings) is not modelled. A panic
-- is `none`. `ReadPump` handles one message after another, so a handler is one step.
pub mod Budget
pub mod Outcomes
pub mod Crash
pub mod Pumps
pub mod Shape
pub mod Handled
pub mod Spec
pub mod Refine
pub mod Relay
pub mod Write
mod Tests
mod Examples
use fileflow.Common.{
  Bytes, List, Option, [], codes, delete, if◌then◌else◌, int_leb, leb, length, lookup, ltb, negsuc,
  none, not, pos, put, some, suc, zero, ℕ, ℤ, ◌*◌, ◌+◌, ◌==◌, bytes_key, ◌>>=◌,
}
use fileflow.Realtime.Events.{
  marshal_event, parse_event, Codec, Event, event_ack, event_msg_end, event_msg_start,
  event_para_chunk, event_para_end, event_para_start, event_send_fail, get_chunk_text, get_msg_id,
  get_para_index, max_chunk_size, max_paragraphs, new_event, send_fail,
}
use fileflow.Realtime.Hub.{Hub, has_peer, send_to_peer, try_send}

abbrev pub max_active_msgs : ℕ
max_active_msgs = 100

abbrev pub default_message_size : ℕ
default_message_size = 256 * 1024

pub record MessageState : Type 0 where
  pub msg_id : Bytes
  pub para_count : ℕ
  pub total_bytes : ℕ
  pub current_para : ℤ

pub record Client : Type 0 where
  -- The number that stands for the pointer, in the hub too.
  pub id : ℕ
  pub device_id : Bytes
  pub ip : Bytes
  pub max_message_size : ℕ
  pub active_messages : List (Bytes × MessageState)

-- A limit that is not positive is replaced by the default.
unfoldable pub message_limit : ℤ → ℕ
message_limit (pos zero) = default_message_size
message_limit (pos (suc n)) = suc n
message_limit (negsuc n) = default_message_size

unfoldable pub new_client : ℕ → Bytes → Bytes → ℤ → Client
unfolding message_limit
new_client id device_id ip max_message_bytes = record {
  id = id;
  device_id = device_id;
  ip = ip;
  max_message_size = message_limit max_message_bytes;
  active_messages = [];
}

-- The event types that `handleMessage` tells apart.
pub data Kind : Type 0 where
  msg_start para_start para_chunk para_end msg_end ack unknown : Kind

unfoldable pub kind_of : Bytes → Kind
kind_of t =
    if t == event_msg_start
    then msg_start
    else if t == event_para_start
    then para_start
    else if t == event_para_chunk
    then para_chunk
    else if t == event_para_end
    then para_end
    else if t == event_msg_end
    then msg_end
    else if t == event_ack
    then ack
    else unknown

abbrev fresh_state : Bytes → MessageState
fresh_state id = record { msg_id = id; para_count = 0; total_bytes = 0; current_para = negsuc 0 }

-- The client and the hub after a handler.
abbrev pub Outcome : Type 0
Outcome = Option (Client × Hub)

-- `c.hub.SendToPeer(c, data)`: the handlers ignore whether a peer took the message.
abbrev pub forward : Client → Hub → Bytes → Outcome
forward c h d = do (taken, h') ← send_to_peer h c.id d; some (c, h')

abbrev pub set_state : Client → Bytes → MessageState → Client
set_state c id s = record c { active_messages = put id s c.active_messages }

abbrev pub drop_state : Client → Bytes → Client
drop_state c id = record c { active_messages = delete id c.active_messages }

-- `Send`: whether the channel had room is not told.
unfoldable pub client_send : Client → Hub → Bytes → Option Hub
client_send c h d = do (taken, h') ← try_send h c.id d; some h'

module _ (codec : Codec) where
  unfoldable pub report_failure : Client → Hub → Bytes → Bytes → ℕ → Outcome
  report_failure c h id reason now =
      elim (marshal_event codec (new_event event_send_fail (send_fail id reason) now)) [
        | none ↦ some (c, h)
        | some m ↦ do (taken, h') ← try_send h c.id m; some (drop_state c id, h')
      ]

  unfoldable pub handle_msg_start : Client → Hub → Event → Bytes → ℕ → Outcome
  handle_msg_start c h e d now =
      let id = get_msg_id e in
      if id == []
      then some (c, h)
      else if not (has_peer h c.id)
      then report_failure c h id (codes "peer_offline") now
      else if leb max_active_msgs (length c.active_messages)
      then report_failure c h id (codes "too_many_active_messages") now
      else forward (set_state c id (fresh_state id)) h d

  start_para : Client → Hub → Bytes → Bytes → ℕ → ℤ → MessageState → Outcome
  start_para c h id d now i s =
      if int_leb (pos max_paragraphs) i
      then report_failure c h id (codes "max_paragraphs_exceeded") now
      else forward (set_state c id (record s { current_para = i; para_count = s.para_count + 1 })) h
          d

  unfoldable pub handle_para_start : Client → Hub → Event → Bytes → ℕ → Outcome
  unfolding start_para
  handle_para_start c h e d now = elim (lookup (get_msg_id e) c.active_messages) [
    | none ↦ some (c, h)
    | some s ↦ start_para c h (get_msg_id e) d now (get_para_index e) s
  ]

  -- The bytes are counted before the total is checked.
  add_chunk : Client → Hub → Bytes → Bytes → ℕ → ℕ → MessageState → Outcome
  add_chunk c h id d now n s =
      let counted = set_state c id (record s { total_bytes = s.total_bytes + n }) in
      if ltb max_chunk_size n
      then report_failure c h id (codes "chunk_too_large") now
      else if ltb c.max_message_size (s.total_bytes + n)
      then report_failure counted h id (codes "message_too_large") now
      else forward counted h d

  unfoldable pub handle_para_chunk : Client → Hub → Event → Bytes → ℕ → Outcome
  unfolding add_chunk
  handle_para_chunk c h e d now = elim (lookup (get_msg_id e) c.active_messages) [
    | none ↦ some (c, h)
    | some s ↦ add_chunk c h (get_msg_id e) d now (length (get_chunk_text e)) s
  ]

  unfoldable pub handle_para_end : Client → Hub → Event → Bytes → Outcome
  handle_para_end c h e d = elim (lookup (get_msg_id e) c.active_messages) [
    | none ↦ some (c, h)
    | some s ↦ forward (set_state c (get_msg_id e) (record s { current_para = negsuc 0 })) h d
  ]

  unfoldable pub handle_msg_end : Client → Hub → Event → Bytes → Outcome
  handle_msg_end c h e d = forward (drop_state c (get_msg_id e)) h d

  unfoldable pub dispatch : Kind → Client → Hub → Event → Bytes → ℕ → Outcome
  dispatch msg_start c h e d now = handle_msg_start c h e d now
  dispatch para_start c h e d now = handle_para_start c h e d now
  dispatch para_chunk c h e d now = handle_para_chunk c h e d now
  dispatch para_end c h e d now = handle_para_end c h e d
  dispatch msg_end c h e d now = handle_msg_end c h e d
  dispatch ack c h e d now = forward c h d
  dispatch unknown c h e d now = some (c, h)

  unfoldable pub handle_message : Client → Hub → Bytes → ℕ → Outcome
  unfolding dispatch kind_of
  handle_message c h d now = elim (parse_event codec d) [
    | none ↦ some (c, h)
    | some e ↦ dispatch (kind_of e.kind) c h e d now
  ]
