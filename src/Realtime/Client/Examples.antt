-- ===== src/Realtime/Client/Examples.antt =====
-- Runs of the protocol of internal/realtime/client.go as a whole: a relayed message, and the end of
-- a write loop.
use fileflow.Common.{
  Bytes, List, [], arith, codes, false, if◌then◌else◌, inl, inr, lookup, ltb, pos, refl, some, true,
  ℕ, ◌-◌, ◌==◌, ◌∷◌, ◌≡◌, bytes_key, nat_key,
}
use fileflow.Limit.{RateLimit}
use fileflow.Realtime.Events.{
  Codec, CodecLaws, Event, Fields, decoded, end, event_msg_end, event_msg_start, event_para_chunk,
  event_para_start, field, find_field, get_chunk_text, get_msg_id, get_para_index, number, object,
  text,
}
use fileflow.Realtime.Hub.{Hub, empty_chan, has_peer, member}
use fileflow.Realtime.Client.{Client, handle_message, kind_of}
use fileflow.Realtime.Client.Spec.{enter, judge, no_messages, relayed}
use fileflow.Realtime.Client.Refine.{Refines, handle_message-Refines}
use fileflow.Realtime.Client.Relay.{IsPair, Relays, all_admitted, all_relayed, read_loop-Relays}
use fileflow.Realtime.Client.Budget.{IsBounded}
use fileflow.Realtime.Hub.Soundness.{IsSound}
use fileflow.Realtime.Client.Write.{
  Signal, Wire, close_frame, drain, ping_frame, returns, takes, text_frame, ticks, write_batch,
  write_pump, write_turn,
}
use fileflow.Realtime.Client.Write.Ends.{Flushed, all_fine, write_pump_ends}

abbrev message_event : Bytes → Fields → Event
message_event kind more = record {
  kind = kind;
  value = decoded (object (field (codes "msgId") (text (codes "m1")) more));
  timestamp = 0;
}

-- "s" starts message m1, "p" its paragraph 0, "c" is a chunk of five bytes, all else ends it.
abbrev four_events : Bytes → Event
four_events d =
    if d == codes "s"
    then message_event event_msg_start end
    else if d == codes "p"
    then message_event event_para_start (field (codes "i") (number (pos 0)) end)
    else if d == codes "c"
    then message_event event_para_chunk (field (codes "s") (text (codes "hello")) end)
    else message_event event_msg_end end

abbrev wire_codec : Codec
wire_codec = record { marshal = λ e. some (codes "f"); unmarshal = λ d. some (four_events d) }

wire_codec_laws : CodecLaws wire_codec
wire_codec_laws = record {
  marshal_send_fail = λ kind id reason ts. (codes "f", refl);
  marshal_presence = λ kind online required ts. (codes "f", refl);
}

abbrev two_hub : Hub
two_hub = record { clients = 1 ∷ 2 ∷ []; chans = λ j. empty_chan; pending = [] }

two_hub-IsSound : IsSound two_hub
two_hub-IsSound = record { unique = ((omega arith, tt), (tt, tt)); all_open = (refl, (refl, tt)) }

abbrev writer : Client
writer = record {
  id = 1;
  device_id = codes "d1";
  ip = codes "10.0.0.1";
  max_message_size = 8;
  active_messages = [];
}

writer-IsBounded : IsBounded writer
writer-IsBounded = record { distinct = tt; few = omega arith; in_budget = tt }

two_hub-IsPair : IsPair two_hub 1 2
unfolding member
two_hub-IsPair = record {
  other = λ e. ground (arith, e);
  connected = refl;
  alone = (inl refl, (inr refl, tt));
}

abbrev tokens : RateLimit
tokens = record { Rate = ℕ; Bucket = ℕ; new_bucket = λ r b. b; allow = λ b now. (ltb 0 b, b - 1) }

abbrev whole_message : List (Bytes × ℕ)
whole_message = (codes "s", 0) ∷ (codes "p", 1) ∷ (codes "c", 2) ∷ (codes "e", 3) ∷ []

handle_message-Refines_example :
    Refines wire_codec writer two_hub
      (codes "s")
      0
      (codes "m1")
      (relayed, enter (codes "m1") 0 no_messages)
      (handle_message wire_codec writer two_hub (codes "s") 0)
unfolding judge kind_of has_peer get_msg_id find_field lookup
handle_message-Refines_example =
    handle_message-Refines wire_codec wire_codec_laws writer two_hub (codes "s") 0 two_hub-IsSound
      refl tt

-- The message passes the specification, and its second chunk would not.
refuses_second_chunk :
    all_relayed wire_codec 8 no_messages
      ((codes "s", 0) ∷ (codes "p", 1) ∷ (codes "c", 2) ∷ (codes "c", 3) ∷ [])
    ≡ false
unfolding all_relayed judge kind_of get_msg_id get_chunk_text get_para_index find_field
refuses_second_chunk = refl

relays_whole : all_relayed wire_codec 8 no_messages whole_message ≡ true
unfolding all_relayed judge kind_of get_msg_id get_chunk_text get_para_index find_field
relays_whole = refl

admits_whole : all_admitted tokens 20 whole_message ≡ true
unfolding all_admitted
admits_whole = refl

read_loop-Relays_example :
    Relays wire_codec wire_codec_laws tokens 20 writer two_hub 2 whole_message
unfolding lookup
read_loop-Relays_example =
    read_loop-Relays wire_codec wire_codec_laws tokens 20 writer two_hub 2 whole_message
      two_hub-IsSound refl writer-IsBounded two_hub-IsPair (omega arith) admits_whole relays_whole

-- Two messages wait when the hub closes the channel.
abbrev closing : Wire
closing = record {
  chan = record { queue = codes "ab" ∷ codes "c" ∷ []; closed = true };
  frames = [];
  connected = true;
}

abbrev turns : List Signal
turns = takes true true ∷ ticks true ∷ takes true true ∷ takes true true ∷ []

abbrev closed_down : Wire
closed_down = record {
  chan = record { queue = []; closed = true };
  frames = text_frame (97 ∷ 98 ∷ 10 ∷ 99 ∷ []) ∷ ping_frame ∷ close_frame ∷ [];
  connected = false;
}

closes_down : write_pump closing turns ≡ returns closed_down
unfolding write_pump write_turn write_batch drain
closes_down = refl

write_pump_ends_example :
    (w' : Wire) × (write_pump closing turns ≡ returns w')
    × (w'.connected ≡ false)
    × (all_fine turns ≡ true → Flushed closing w')
write_pump_ends_example = write_pump_ends closing turns refl (omega arith)
