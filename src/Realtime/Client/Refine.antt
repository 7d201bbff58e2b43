-- ===== src/Realtime/Client/Refine.antt =====
-- internal/realtime/client.go: the handlers do what the specification says of every message.
use fileflow.Common.{
  Bool, Bool-cases, Bytes, IsDistinct, IsFresh, List, Option, Option-cases, [], ap, arith,
  bytes_beq_iff, delete, delete-put, delete_fresh, if◌then◌else◌, inl, inr, int_leb, leb, length,
  lookup, lookup-delete, lookup-put, ltb, none, pos, put, refl, some, subst, ℕ, ℤ, ◌+◌, ◌==◌, ◌∙◌,
  ◌∷◌, ◌≡◌, bytes_key,
}
use fileflow.Realtime.Client.{
  Client, Kind, MessageState, Outcome, ack, add_chunk, dispatch, drop_state, forward, fresh_state,
  handle_message, handle_msg_end, handle_msg_start, handle_para_chunk, handle_para_end,
  handle_para_start, kind_of, max_active_msgs, msg_end, msg_start, para_chunk, para_end, para_start,
  report_failure, set_state, start_para, unknown,
}
use fileflow.Realtime.Client.Spec.{
  Verdict, View, enter, finish, ignored, is_some, judge, judge_chunk, judge_end, judge_kind,
  judge_para, judge_start, refused, relayed, total_of, view,
}
use fileflow.Realtime.Events.{
  Codec, CodecLaws, Event, event_send_fail, get_chunk_text, get_msg_id, get_para_index,
  max_chunk_size, max_paragraphs, new_event, send_fail,
}
use fileflow.Realtime.Hub.{Hub, has_peer}
use fileflow.Realtime.Client.Outcomes.{forward-Accepts, report_failure-Refuses}
use fileflow.Realtime.Hub.Delivery.{Delivers, IsOpen, enqueue, has_room}
use fileflow.Realtime.Hub.Soundness.{IsSound}

View-path : (v w : View) → ((j : Bytes) → v.taken j ≡ w.taken j) → v.active ≡ w.active → v ≡ w
View-path v w p q = λ i. record { taken = λ j. p j i; active = q i }

length-put :
    (id : Bytes) (s : MessageState) (m : List (Bytes × MessageState))
    → length (put id s m) ≡ (if is_some (total_of (lookup id m)) then length m else length m + 1)
unfolding put lookup
length-put id s [] = refl
length-put id s ((j, t) ∷ m) = ground (arith, length-put id s m)

length-delete :
    (id : Bytes) (m : List (Bytes × MessageState))
    → IsDistinct m
    → length m ≡ length (delete id m) + (if is_some (total_of (lookup id m)) then 1 else 0)
unfolding delete lookup
length-delete id [] d = refl
length-delete id ((j, t) ∷ m) (f, d) = elim (Bool-cases (j == id)) [
  | inl same ↦
      let e : j ≡ id = (bytes_beq_iff j id).0 same in
      let q : length (delete id m) ≡ length m =
        ap length (delete_fresh id m (subst (λ k. IsFresh k m) e f)) in
      ground (arith, q)
  | inr other ↦ ground (arith, length-delete id m d)
]

view-set_state :
    (c : Client) (id : Bytes) (s : MessageState)
    → view (set_state c id s) ≡ enter id s.total_bytes (view c)
view-set_state c id s =
    View-path _ _ (λ j. rw (lookup-put id j s c.active_messages) (ground arith))
      (length-put id s c.active_messages)

view-drop_state :
    (c : Client) (id : Bytes)
    → IsDistinct c.active_messages
    → view (drop_state c id) ≡ finish id (view c)
view-drop_state c id d =
    View-path _ _ (λ j. rw (lookup-delete id j c.active_messages) (ground arith))
      (ground (arith, length-delete id c.active_messages d))

-- Storing a message with the bytes it has already brought does not show.
view-same :
    (c : Client) (id : Bytes) (s t : MessageState)
    → lookup id c.active_messages ≡ some s
    → t.total_bytes ≡ s.total_bytes
    → view (set_state c id t) ≡ view c
view-same c id s t found same =
    view-set_state c id t
    ∙ View-path _ _ (λ j. ground (arith, bytes_beq_iff id j, found, same)) (rw found refl)

-- What the server does for a verdict, with the hub `h'` that is left.
abbrev pub Enacts : Codec → Client → Hub → Bytes → ℕ → Bytes → Verdict → Hub → Type 0
Enacts codec c h d now id relayed h' =
    (taken : Bool) × Delivers h c.id d h.clients (some (taken, h'))
Enacts codec c h d now id ignored h' = h' ≡ h
Enacts codec c h d now id (refused reason) h' =
    (m : Bytes) × (codec.marshal (new_event event_send_fail (send_fail id reason) now) ≡ some m)
    × (h' ≡ (if has_room h c.id then enqueue h c.id m else h))

-- The handler returns; the view and the hub are then as the specification has them.
abbrev pub Refines : Codec → Client → Hub → Bytes → ℕ → Bytes → Verdict × View → Outcome → Type 0
Refines codec c h d now id (verdict, v) r =
    (c' : Client) × (h' : Hub) × (r ≡ some (c', h'))
    × (view c' ≡ v)
    × Enacts codec c h d now id verdict h'

module _ (codec : Codec) (laws : CodecLaws codec) (c : Client) (h : Hub) (sound : IsSound h)
    (own : IsOpen h c.id) (d : Bytes) (now : ℕ) where
  ignored-Refines : (id : Bytes) → Refines codec c h d now id (ignored, view c) (some (c, h))
  ignored-Refines id = (c, h, refl, refl, refl)

  relayed-Refines :
      (id : Bytes) (active : List (Bytes × MessageState)) (v : View)
      → view (record c { active_messages = active }) ≡ v
      → Refines codec c h d now id
          (relayed, v)
          (forward (record c { active_messages = active }) h d)
  relayed-Refines id active v q =
      let (taken, h', delivers, e) = forward-Accepts codec laws c h sound own active d in
      (record c { active_messages = active }, h', e, q, (taken, delivers))

  refused-Refines :
      (active : List (Bytes × MessageState)) (id reason : Bytes)
      → IsDistinct c.active_messages
      → delete id active ≡ delete id c.active_messages
      → Refines codec c h d now id
          (refused reason, finish id (view c))
          (report_failure codec (record c { active_messages = active }) h id reason now)
  refused-Refines active id reason distinct same =
      let (m, done, e) =
        report_failure-Refuses codec laws c h sound own active id reason now same in
      (drop_state c id, _, e, view-drop_state c id distinct, (m, done, refl))

  msg_start-Refines :
      (e : Event)
      → IsDistinct c.active_messages
      → Refines codec c h d now
          (get_msg_id e)
          (judge_start (get_msg_id e) (has_peer h c.id) (view c))
          (handle_msg_start codec c h e d now)
  unfolding handle_msg_start
  msg_start-Refines e distinct =
      let id : Bytes = get_msg_id e in
      elim (Bool-cases (id == [])) [
        | inl nameless ↦ rw nameless (ignored-Refines id)
        | inr named ↦ elim (Bool-cases (has_peer h c.id)) [
          | inr alone ↦ rw (named, alone) (refused-Refines c.active_messages id _ distinct refl)
          | inl peer ↦ elim (Bool-cases (leb max_active_msgs (length c.active_messages))) [
            | inl many ↦
                rw (named, peer, many) (refused-Refines c.active_messages id _ distinct refl)
            | inr few ↦
                rw (named, peer, few)
                  (relayed-Refines id _ _ (view-set_state c id (fresh_state id)))
          ]
        ]
      ]

  start_para-Refines :
      (id : Bytes) (i : ℤ) (s : MessageState)
      → lookup id c.active_messages ≡ some s
      → IsDistinct c.active_messages
      → Refines codec c h d now id
          (judge_para id i (view c) (total_of (some s)))
          (start_para codec c h id d now i s)
  unfolding start_para
  start_para-Refines id i s found distinct = elim (Bool-cases (int_leb (pos max_paragraphs) i)) [
    | inl beyond ↦ rw beyond (refused-Refines c.active_messages id _ distinct refl)
    | inr below ↦ rw below (relayed-Refines id _ _ (view-same c id s _ found refl))
  ]

  add_chunk-Refines :
      (id : Bytes) (n : ℕ) (s : MessageState)
      → lookup id c.active_messages ≡ some s
      → IsDistinct c.active_messages
      → Refines codec c h d now id
          (judge_chunk id n c.max_message_size (view c) (total_of (some s)))
          (add_chunk codec c h id d now n s)
  unfolding add_chunk
  add_chunk-Refines id n s found distinct = elim (Bool-cases (ltb max_chunk_size n)) [
    | inl large ↦ rw large (refused-Refines c.active_messages id _ distinct refl)
    | inr small ↦ elim (Bool-cases (ltb c.max_message_size (s.total_bytes + n))) [
      | inl over ↦
          rw (small, over) (refused-Refines _ id _ distinct (delete-put id _ c.active_messages))
      | inr within ↦ rw (small, within) (relayed-Refines id _ _ (view-set_state c id _))
    ]
  ]

  -- The handlers that look the message up first.
  found-Refines :
      (id : Bytes) (r : MessageState → Outcome) (out : Option ℕ → Verdict × View)
      → out none ≡ (ignored, view c)
      → ((s : MessageState)
          → lookup id c.active_messages ≡ some s
          → Refines codec c h d now id (out (some s.total_bytes)) (r s))
      → Refines codec c h d now id
          (out (total_of (lookup id c.active_messages)))
          (elim (lookup id c.active_messages) [ none ↦ some (c, h) | some s ↦ r s ])
  found-Refines id r out unknown_id known = elim (Option-cases (lookup id c.active_messages)) [
    | inl missing ↦ rw (missing, unknown_id) (ignored-Refines id)
    | inr (s, found) ↦ rw found (known s found)
  ]

  kind-Refines :
      (k : Kind) (e : Event)
      → IsDistinct c.active_messages
      → Refines codec c h d now
          (get_msg_id e)
          (judge_kind k c.max_message_size (has_peer h c.id) (view c) e)
          (dispatch codec k c h e d now)
  unfolding dispatch handle_para_start handle_para_chunk handle_para_end handle_msg_end
  kind-Refines msg_start e distinct = msg_start-Refines e distinct
  kind-Refines para_start e distinct =
      found-Refines (get_msg_id e) _ (judge_para (get_msg_id e) (get_para_index e) (view c)) refl
        (λ s found. start_para-Refines (get_msg_id e) (get_para_index e) s found distinct)
  kind-Refines para_chunk e distinct =
      found-Refines (get_msg_id e) _
        (judge_chunk (get_msg_id e) (length (get_chunk_text e)) c.max_message_size (view c)) refl
        (λ s found. add_chunk-Refines (get_msg_id e) (length (get_chunk_text e)) s found distinct)
  kind-Refines para_end e distinct =
      found-Refines (get_msg_id e) _ (judge_end (view c)) refl
        (λ s found. relayed-Refines (get_msg_id e) _ _ (view-same c (get_msg_id e) s _ found refl))
  kind-Refines msg_end e distinct =
      relayed-Refines (get_msg_id e) _ _ (view-drop_state c (get_msg_id e) distinct)
  kind-Refines ack e distinct = relayed-Refines (get_msg_id e) c.active_messages _ refl
  kind-Refines unknown e distinct = ignored-Refines (get_msg_id e)

abbrev pub id_in : Option Event → Bytes
id_in none = []
id_in (some e) = get_msg_id e

module _ (codec : Codec) (laws : CodecLaws codec) where
  -- While the hub is sound and the client's own channel is open, the handler of any bytes is the
  -- specification: it returns, the messages under way and the bytes they have brought are then
  -- what `judge` says, and so is what the hub does: a message that is to be relayed goes to
  -- a peer as `SendToPeer` chooses, one that is refused puts a `send_fail` of the reason into the
  -- sender's own channel if that has room, and any other leaves the hub as it was.
  pub handle_message-Refines :
      (c : Client) (h : Hub) (d : Bytes) (now : ℕ)
      → IsSound h
      → IsOpen h c.id
      → IsDistinct c.active_messages
      → Refines codec c h d now
          (id_in (codec.unmarshal d))
          (judge c.max_message_size (has_peer h c.id) (view c) (codec.unmarshal d))
          (handle_message codec c h d now)
  unfolding handle_message judge
  handle_message-Refines c h d now sound own distinct = elim (Option-cases (codec.unmarshal d)) [
    | inl malformed ↦
        rw (malformed, handle_message) (ignored-Refines codec laws c h sound own d now [])
    | inr (e, parsed) ↦
        rw (parsed, handle_message)
          (kind-Refines codec laws c h sound own d now (kind_of e.kind) e distinct)
  ]
