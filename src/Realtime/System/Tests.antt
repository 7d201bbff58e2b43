-- ===== src/Realtime/System/Tests.antt =====
-- Runs of the whole of internal/realtime on two concrete connections.
use fileflow.Common.{
  Bytes, [], arith, codes, false, if◌then◌else◌, length, lookup, pos, put, refl, some, true, ◌+◌,
  ◌==◌, ◌∷◌, ◌≡◌, ◌≤◌, bytes_key, nat_key,
}
use fileflow.Limit.{ConnLimiter, count_of, increment, new_conn_limiter}
use fileflow.Realtime.Events.{
  Codec, CodecLaws, Event, decoded, end, event_ack, event_msg_start, field, find_field, get_msg_id,
  object, text,
}
use fileflow.Realtime.Hub.{
  Hub, broadcast, broadcast_loop, broadcast_one, broadcast_presence, empty_chan, member, new_hub,
  on_register, set_chan, try_send,
}
use fileflow.Realtime.Client.{Client, new_client}
use fileflow.Realtime.System.{
  Run, System, admits, after_admission, and_then, at_start, new_system, received, registers,
  set_pump, takes_first, writes,
}
use fileflow.Realtime.System.Order.{Flows, Follows}
use fileflow.Realtime.System.Flow.{Run-Flows, Run-Follows}
use fileflow.Realtime.System.Flood.{IsAck}
use fileflow.Realtime.System.Crash.{Crashes, IsStart, Run-Crashes}
use fileflow.Realtime.System.Slots.{HasSlots, Run-HasSlots, count_ip}

-- "a" is read as an acknowledgement, all else as the start of message m1.
abbrev event_of : Bytes → Event
event_of kind = record {
  kind = kind;
  value = decoded (object (field (codes "msgId") (text (codes "m1")) end));
  timestamp = 0;
}

abbrev toy : Codec
toy = record {
  marshal = λ e. some (codes "f");
  unmarshal = λ d. some (event_of (if d == codes "a" then event_ack else event_msg_start));
}

toy_laws : CodecLaws toy
toy_laws = record {
  marshal_send_fail = λ kind id reason ts. (codes "f", refl);
  marshal_presence = λ kind online required ts. (codes "f", refl);
}

abbrev taken_slot : ConnLimiter
taken_slot = record {
  ip_counts = (codes "10.0.0.1", 1) ∷ [];
  total_count = 1;
  max_per_ip = 2;
  max_global = 5;
}

takes_slot : increment (new_conn_limiter 2 5) (codes "10.0.0.1") ≡ (true, taken_slot)
unfolding increment new_conn_limiter count_of lookup put
takes_slot = refl

abbrev newcomer : Client
newcomer = new_client 0 (codes "d") (codes "10.0.0.1") (pos 64)

abbrev admitted : System
admitted = after_admission (new_system 2 5) taken_slot (codes "d") (codes "10.0.0.1") (pos 64)

abbrev one_hub : Hub
one_hub = record {
  clients = 0 ∷ [];
  chans = λ j. if j == 0 then record { queue = codes "f" ∷ []; closed = false } else empty_chan;
  pending = [];
}

registers_newcomer : on_register toy new_hub newcomer.id 0 ≡ some one_hub
unfolding on_register broadcast_presence broadcast broadcast_loop broadcast_one new_hub member
    new_client try_send
registers_newcomer = refl

abbrev registered : System
registered = record admitted { hub = one_hub; joining = []; readers = newcomer ∷ [] }

to_registered : Run toy (new_system 2 5) registered
to_registered =
    and_then
      (and_then at_start
        (admits (codes "d") (codes "10.0.0.1") (pos 64) taken_slot takes_slot refl))
      (registers [] [] newcomer 0 one_hub refl refl registers_newcomer refl)

-- The pump takes the message that tells who is online.
abbrev after_take : System
after_take = record registered {
  hub = set_chan one_hub 0 (record { queue = []; closed = false });
  pumps = set_pump registered.pumps 0 (record { phase = received (codes "f"); frames = [] });
}

to_after_take : Run toy registered after_take
to_after_take = and_then at_start (
    writes 0 (record { phase = received (codes "f"); frames = [] })
      (record { queue = []; closed = false }) (takes_first (codes "f") [] refl refl refl refl) refl)

Run-HasSlots_example :
    HasSlots 2 5 registered
    × (length registered.joining + length registered.readers ≤ 5)
    × ((ip : Bytes) → count_ip ip registered.joining + count_ip ip registered.readers ≤ 2)
Run-HasSlots_example = Run-HasSlots toy 2 5 registered to_registered

Run-Flows_example : Flows registered.hub registered.pumps
Run-Flows_example = Run-Flows toy 2 5 registered to_registered

Run-Follows_example :
    Follows
      (registered.pumps 0)
      (registered.hub.chans 0)
      (after_take.pumps 0)
      (after_take.hub.chans 0)
Run-Follows_example = Run-Follows toy 2 5 registered after_take to_registered to_after_take 0

IsAck-toy : IsAck toy (codes "a")
IsAck-toy = record { event = event_of event_ack; parsed = refl; kind = refl }

IsStart-toy : IsStart toy (codes "x")
unfolding get_msg_id find_field
IsStart-toy = record {
  event = event_of event_msg_start;
  parsed = refl;
  kind = refl;
  named = λ e. cc;
}

Run-Crashes_example : Crashes toy 2 5 (codes "x")
Run-Crashes_example =
    Run-Crashes toy toy_laws 2 5 (codes "d") (codes "10.0.0.1") (codes "e") (codes "10.0.0.1")
      (pos 64) (codes "a") (codes "x") (omega arith) (omega arith) IsAck-toy IsStart-toy
