-- ===== src/Realtime/Client/Crash.antt =====
-- internal/realtime/client.go: when a handler returns, and what `sendFail` does on a closed channel.
use fileflow.Common.{
  Bool-cases, Bytes, List, Option-cases, [], arith, bytes_beq, bytes_beq_iff, delete, false, inl,
  inr, none, refl, some, true, ℕ, ◌/◌, ◌≡◌, ◌≢◌, bytes_key,
}
use fileflow.Realtime.Events.{
  Codec, CodecLaws, Event, event_msg_start, event_send_fail, get_msg_id, new_event, send_fail,
}
use fileflow.Realtime.Hub.{Hub, has_peer, member, on_unregister, try_send}
use fileflow.Realtime.Client.{
  Client, MessageState, Outcome, dispatch, forward, handle_message, handle_msg_start, kind_of,
  report_failure,
}
use fileflow.Realtime.Hub.Delivery.{IsOpen, enqueue, has_room, try_send_open}
use fileflow.Realtime.Hub.Soundness.{
  IsSound, Keeps, enqueue-Keeps, on_unregister-Keeps, send_to_peer-Keeps,
}
use fileflow.Realtime.Client.Shape.{handle_message-cases}

-- The handler returns, with the same client, and the hub has the same clients and the same
-- channels open.
abbrev pub Returns : Client → Hub → Outcome → Type 0
Returns c h r =
    (active : List (Bytes × MessageState)) × (h' : Hub) × (r
      ≡ some (record c { active_messages = active }, h'))
    × Keeps h h'

module _ (c : Client) (h : Hub) (sound : IsSound h) where
  unchanged-Returns : Returns c h (some (c, h))
  unchanged-Returns = (c.active_messages, h, refl, (refl, λ j. refl))

  forward-Returns :
      (active : List (Bytes × MessageState)) (d : Bytes)
      → Returns c h (forward (record c { active_messages = active }) h d)
  forward-Returns active d =
      let (b, h', e, k) = send_to_peer-Keeps h c.id d sound in (active, h', rw e, k)

  module _ (own : IsOpen h c.id) (codec : Codec) where
    report_failure-Returns :
        (active : List (Bytes × MessageState)) (id reason : Bytes) (now : ℕ)
        → Returns c h (report_failure codec (record c { active_messages = active }) h id reason now)
    unfolding report_failure
    report_failure-Returns active id reason now =
        elim (Option-cases (codec.marshal (new_event event_send_fail (send_fail id reason) now))) [
          | inl failed ↦ (active, h, rw (failed, report_failure), (refl, λ j. refl))
          | inr (m, done) ↦ elim (Bool-cases (has_room h c.id)) [
            | inl room ↦ (
              delete id active,
              enqueue h c.id m,
              rw (done, report_failure, try_send_open h c.id m own, room),
              enqueue-Keeps h c.id m,
            )
            | inr full ↦ (
              delete id active,
              h,
              rw (done, report_failure, try_send_open h c.id m own, full),
              (refl, λ j. refl),
            )
          ]
        ]

    -- While each connected client stands in the hub once with its channel open, and the sender's
    -- own channel is open, the handler of any bytes returns: it does not panic, and it opens or
    -- closes no channel and changes neither who is connected nor the client's identity and limit.
    pub handle_message-Returns :
        (d : Bytes) (now : ℕ) → Returns c h (handle_message codec c h d now)
    handle_message-Returns d now =
        handle_message-cases codec c h (Returns c h) unchanged-Returns forward-Returns
          report_failure-Returns d now

module _ (codec : Codec) (laws : CodecLaws codec) where
  report_failure_panics :
      (c : Client) (h : Hub) (id reason : Bytes) (now : ℕ)
      → (h.chans c.id).closed ≡ true
      → report_failure codec c h id reason now ≡ none
  unfolding report_failure try_send
  report_failure_panics c h id reason now shut =
      let (m, done) = laws.marshal_send_fail event_send_fail id reason (now / 1_000_000) in
      rw (done, report_failure, shut, try_send)

  closed_after_unregister :
      (h h' : Hub) (id now : ℕ)
      → IsSound h
      → member id h.clients ≡ true
      → on_unregister codec h id now ≡ some h'
      → (h'.chans id).closed ≡ true
  closed_after_unregister h h' id now s m e =
      let (g, f, (_, shut), _) = on_unregister-Keeps codec h id now s in
      let q : h' ≡ g = cc in rw (q, shut id, m) (ground arith)

  -- Once the hub has unregistered a connected client, as it does on its own when the client's
  -- channel is full, the next message of that client which the server refuses with a `send_fail`
  -- panics: stated for a message that starts while no other client is connected.
  pub handle_message_panics :
      (c : Client) (h h' : Hub) (e : Event) (d : Bytes) (now later : ℕ)
      → IsSound h
      → member c.id h.clients ≡ true
      → on_unregister codec h c.id now ≡ some h'
      → codec.unmarshal d ≡ some e
      → e.kind ≡ event_msg_start
      → get_msg_id e ≢ []
      → has_peer h' c.id ≡ false
      → handle_message codec c h' d later ≡ none
  unfolding handle_message dispatch kind_of handle_msg_start get_msg_id
  handle_message_panics c h h' e d now later s m u parsed start named alone =
      let shut = closed_after_unregister h h' c.id now s m u in
      let unnamed : bytes_beq (get_msg_id e) [] ≡ false =
        ground (arith, bytes_beq_iff (get_msg_id e) []) in
      rw (parsed, handle_message, start, unnamed, alone) (report_failure_panics c h' _ _ later shut)
