-- ===== src/Realtime/Client/Tests.antt =====
-- Runs of the handlers of internal/realtime/client.go on concrete messages.
use fileflow.Common.{
  Bytes, [], arith, codes, delete, lookup, pos, put, refl, some, ◌∷◌, ◌≡◌, bytes_key, nat_key,
}
use fileflow.Realtime.Events.{
  Codec, CodecLaws, Event, Fields, decoded, end, event_msg_start, event_para_chunk,
  event_para_start, field, find_field, get_chunk_text, get_msg_id, number, object, text,
}
use fileflow.Realtime.Hub.{
  Hub, broadcast, broadcast_loop, broadcast_presence, close_chan, empty_chan, has_peer, member,
  on_unregister, remove, send_loop, send_to_peer, try_send,
}
use fileflow.Realtime.Client.{
  Client, MessageState, fresh_state, handle_message, handle_msg_start, handle_para_chunk,
  report_failure, set_state,
}
use fileflow.Realtime.Hub.Delivery.{enqueue}
use fileflow.Realtime.Hub.Soundness.{IsSound, dropped}
use fileflow.Realtime.Client.Crash.{Returns, handle_message-Returns}
use fileflow.Realtime.Client.Budget.{Ensures, IsBounded, handle_message-IsBounded}

abbrev about : Bytes → Fields → Event
about kind more = record {
  kind = kind;
  value = decoded (object (field (codes "msgId") (text (codes "m1")) more));
  timestamp = 0;
}

abbrev start_event : Event
start_event = about event_msg_start end

abbrev chunk_event : Event
chunk_event = about event_para_chunk (field (codes "s") (text (codes "hello")) end)

abbrev para_event : Event
para_event = about event_para_start (field (codes "i") (number (pos 3)) end)

-- Every message is read as the start of message m1, and every event is written as "f".
abbrev toy : Codec
toy = record { marshal = λ e. some (codes "f"); unmarshal = λ d. some start_event }

toy_laws : CodecLaws toy
toy_laws = record {
  marshal_send_fail = λ kind id reason ts. (codes "f", refl);
  marshal_presence = λ kind online required ts. (codes "f", refl);
}

-- Clients 1 and 2 are connected.
abbrev pair_hub : Hub
pair_hub = record { clients = 1 ∷ 2 ∷ []; chans = λ j. empty_chan; pending = [] }

pair_hub-IsSound : IsSound pair_hub
pair_hub-IsSound = record { unique = ((omega arith, tt), (tt, tt)); all_open = (refl, (refl, tt)) }

abbrev idle : Client
idle = record {
  id = 1;
  device_id = codes "d1";
  ip = codes "10.0.0.1";
  max_message_size = 8;
  active_messages = [];
}

abbrev state_five : MessageState
state_five = record { msg_id = codes "m1"; para_count = 1; total_bytes = 5; current_para = pos 0 }

abbrev busy : Client
busy = record idle { active_messages = (codes "m1", state_five) ∷ [] }

idle-IsBounded : IsBounded idle
idle-IsBounded = record { distinct = tt; few = omega arith; in_budget = tt }

starts_message :
    handle_message toy idle pair_hub (codes "x") 0
    ≡ some (set_state idle (codes "m1") (fresh_state (codes "m1")), enqueue pair_hub 2 (codes "x"))
unfolding handle_message handle_msg_start get_msg_id find_field has_peer send_to_peer send_loop
    try_send lookup put
starts_message = refl

-- 5 bytes were taken in, 5 more pass the limit of 8: the message ends.
ends_message :
    handle_para_chunk toy busy pair_hub chunk_event (codes "x") 0
    ≡ some (idle, enqueue pair_hub 1 (codes "f"))
unfolding handle_para_chunk get_msg_id get_chunk_text find_field report_failure try_send lookup put
    delete
ends_message = refl

handle_message-IsBounded_example :
    Ensures IsBounded (handle_message toy idle pair_hub (codes "x") 0)
handle_message-IsBounded_example =
    handle_message-IsBounded toy toy_laws idle pair_hub (codes "x") 0 idle-IsBounded

handle_message-Returns_example :
    Returns idle pair_hub (handle_message toy idle pair_hub (codes "x") 0)
handle_message-Returns_example =
    handle_message-Returns idle pair_hub pair_hub-IsSound refl toy (codes "x") 0

-- Client 1 alone, before and after the hub unregisters it.
abbrev lone_hub : Hub
lone_hub = record { clients = 1 ∷ []; chans = λ j. empty_chan; pending = [] }

abbrev left_hub : Hub
left_hub = dropped lone_hub 1

lone_hub-IsSound : IsSound lone_hub
lone_hub-IsSound = record { unique = (tt, tt); all_open = (refl, tt) }

unregisters_lone : on_unregister toy lone_hub 1 0 ≡ some left_hub
unfolding on_unregister member remove close_chan broadcast_presence broadcast broadcast_loop
unregisters_lone = refl
