-- ===== src/Realtime/Client/Budget.antt =====
-- internal/realtime/client.go: the limits that hold for the messages a client has under way.
use fileflow.Common.{
  All, Bool-cases, Bytes, IsDistinct, Option-cases, [], arith, delete-All, delete-IsDistinct,
  delete-put, false, inl, inr, put-All, put-IsDistinct, int_leb, leb, length, length-delete-le,
  length-put-le, length-insert_found, lookup, lookup-All, ltb, none, pos, refl, some, ℕ, ℤ, ◌+◌,
  ◌/◌, ◌<◌, ◌==◌, ◌≡◌, ◌≤◌, bytes_key,
}
use fileflow.Realtime.Events.{
  Codec, CodecLaws, Event, event_send_fail, get_msg_id, get_para_index, max_chunk_size,
  max_paragraphs,
}
use fileflow.Realtime.Hub.{Hub, has_peer, send_to_peer, try_send}
use fileflow.Realtime.Client.{
  Client, Kind, MessageState, Outcome, ack, add_chunk, dispatch, drop_state, forward,
  handle_message, handle_msg_end, handle_msg_start, handle_para_chunk, handle_para_end,
  handle_para_start, kind_of, max_active_msgs, msg_end, msg_start, new_client, para_chunk, para_end,
  para_start, report_failure, set_state, start_para, unknown,
}

abbrev pub InBudget : ℕ → MessageState → Type 0
InBudget limit s = (s.total_bytes ≤ limit) × (int_leb (pos max_paragraphs) s.current_para ≡ false)

-- At most 100 messages are under way, each listed once; none has taken in more bytes than the
-- client's limit, and the paragraph that it is in has an index below 512.
pub record IsBounded (c : Client) : Type 0 where
  pub distinct : IsDistinct c.active_messages
  pub few : length c.active_messages ≤ max_active_msgs
  pub in_budget : All (λ b. InBudget c.max_message_size b.1) c.active_messages

-- What holds of the client if the handler returns.
abbrev pub Ensures : (Client → Type 0) → Outcome → Type 0
Ensures P none = Unit
Ensures P (some (c, h)) = P c

drop_state-IsBounded : (c : Client) (id : Bytes) → IsBounded c → IsBounded (drop_state c id)
drop_state-IsBounded c id b = record {
  distinct = delete-IsDistinct id c.active_messages b.distinct;
  few = omega (arith, length-delete-le id c.active_messages, b.few);
  in_budget = delete-All (InBudget c.max_message_size) id c.active_messages b.in_budget;
}

update-IsBounded :
    (c : Client) (id : Bytes) (s s' : MessageState)
    → lookup id c.active_messages ≡ some s
    → InBudget c.max_message_size s'
    → IsBounded c
    → IsBounded (set_state c id s')
update-IsBounded c id s s' found ok b = record {
  distinct = put-IsDistinct id s' c.active_messages b.distinct;
  few = rw (length-insert_found id s' s c.active_messages found) b.few;
  in_budget = put-All (InBudget c.max_message_size) id s' c.active_messages ok b.in_budget;
}

add-IsBounded :
    (c : Client) (id : Bytes) (s : MessageState)
    → length c.active_messages < max_active_msgs
    → InBudget c.max_message_size s
    → IsBounded c
    → IsBounded (set_state c id s)
add-IsBounded c id s room ok b = record {
  distinct = put-IsDistinct id s c.active_messages b.distinct;
  few = omega (arith, length-put-le id s c.active_messages);
  in_budget = put-All (InBudget c.max_message_size) id s c.active_messages ok b.in_budget;
}

forward-Ensures :
    (P : Client → Type 0) (c : Client) (h : Hub) (d : Bytes) → P c → Ensures P (forward c h d)
forward-Ensures P c h d p = elim (Option-cases (send_to_peer h c.id d)) [
  | inl panics ↦ rw panics tt
  | inr ((taken, h'), sent) ↦ rw sent p
]

found_InBudget :
    (c : Client) (id : Bytes) (s : MessageState)
    → IsBounded c
    → lookup id c.active_messages ≡ some s
    → InBudget c.max_message_size s
found_InBudget c id s b found =
    lookup-All (InBudget c.max_message_size) id c.active_messages b.in_budget found

module _ (codec : Codec) (laws : CodecLaws codec) where
  report_failure-Ensures :
      (P : Client → Type 0) (c : Client) (h : Hub) (id reason : Bytes) (now : ℕ)
      → P (drop_state c id)
      → Ensures P (report_failure codec c h id reason now)
  unfolding report_failure
  report_failure-Ensures P c h id reason now p =
      let (m, done) = laws.marshal_send_fail event_send_fail id reason (now / 1_000_000) in
      elim (Option-cases (try_send h c.id m)) [
        | inl panics ↦ rw (done, report_failure, panics) tt
        | inr ((taken, h'), sent) ↦ rw (done, report_failure, sent) p
      ]

  msg_start-IsBounded :
      (c : Client) (h : Hub) (e : Event) (d : Bytes) (now : ℕ)
      → IsBounded c
      → Ensures IsBounded (handle_msg_start codec c h e d now)
  unfolding handle_msg_start
  msg_start-IsBounded c h e d now b = elim (Bool-cases (get_msg_id e == [])) [
    | inl nameless ↦ rw nameless b
    | inr named ↦ elim (Bool-cases (has_peer h c.id)) [
      | inr alone ↦
          rw (named, alone)
            (report_failure-Ensures IsBounded c h _ _ now (drop_state-IsBounded c _ b))
      | inl peer ↦ elim (Bool-cases (leb max_active_msgs (length c.active_messages))) [
        | inl many ↦
            rw (named, peer, many)
              (report_failure-Ensures IsBounded c h _ _ now (drop_state-IsBounded c _ b))
        | inr few ↦
            rw (named, peer, few)
              (forward-Ensures IsBounded _ h d
                (add-IsBounded c _ _ (ground arith) (omega arith, refl) b))
      ]
    ]
  ]

  start_para-IsBounded :
      (c : Client) (h : Hub) (id d : Bytes) (now : ℕ) (i : ℤ) (s : MessageState)
      → lookup id c.active_messages ≡ some s
      → IsBounded c
      → Ensures IsBounded (start_para codec c h id d now i s)
  unfolding start_para
  start_para-IsBounded c h id d now i s found b =
      elim (Bool-cases (int_leb (pos max_paragraphs) i)) [
        | inl beyond ↦
            rw beyond (report_failure-Ensures IsBounded c h _ _ now (drop_state-IsBounded c _ b))
        | inr below ↦ rw below (
            forward-Ensures IsBounded _ h d
              (update-IsBounded c id s _ found ((found_InBudget c id s b found).0, below) b))
      ]

  add_chunk-IsBounded :
      (c : Client) (h : Hub) (id d : Bytes) (now n : ℕ) (s : MessageState)
      → lookup id c.active_messages ≡ some s
      → IsBounded c
      → Ensures IsBounded (add_chunk codec c h id d now n s)
  unfolding add_chunk
  add_chunk-IsBounded c h id d now n s found b = elim (Bool-cases (ltb max_chunk_size n)) [
    | inl large ↦
        rw large (report_failure-Ensures IsBounded c h _ _ now (drop_state-IsBounded c _ b))
    | inr small ↦ elim (Bool-cases (ltb c.max_message_size (s.total_bytes + n))) [
      | inl over ↦
          rw (small, over)
            (report_failure-Ensures IsBounded _ h _ _ now
              (rw (delete-put id _ c.active_messages) (drop_state-IsBounded c id b)))
      | inr within ↦
          rw (small, within)
            (forward-Ensures IsBounded _ h d
              (update-IsBounded c id s _ found (ground arith, (found_InBudget c id s b found).1) b))
    ]
  ]

  para_end-IsBounded :
      (c : Client) (h : Hub) (e : Event) (d : Bytes)
      → IsBounded c
      → Ensures IsBounded (handle_para_end codec c h e d)
  unfolding handle_para_end
  para_end-IsBounded c h e d b = elim (Option-cases (lookup (get_msg_id e) c.active_messages)) [
    | inl unknown_id ↦ rw (unknown_id, handle_para_end) b
    | inr (s, found) ↦
        rw (found, handle_para_end)
          (forward-Ensures IsBounded _ h d
            (update-IsBounded c _ s _ found ((found_InBudget c _ s b found).0, refl) b))
  ]

  para_start-IsBounded :
      (c : Client) (h : Hub) (e : Event) (d : Bytes) (now : ℕ)
      → IsBounded c
      → Ensures IsBounded (handle_para_start codec c h e d now)
  unfolding handle_para_start
  para_start-IsBounded c h e d now b =
      elim (Option-cases (lookup (get_msg_id e) c.active_messages)) [
        | inl unknown_id ↦ rw (unknown_id, handle_para_start) b
        | inr (s, found) ↦
            rw (found, handle_para_start)
              (start_para-IsBounded c h _ d now (get_para_index e) s found b)
      ]

  para_chunk-IsBounded :
      (c : Client) (h : Hub) (e : Event) (d : Bytes) (now : ℕ)
      → IsBounded c
      → Ensures IsBounded (handle_para_chunk codec c h e d now)
  unfolding handle_para_chunk
  para_chunk-IsBounded c h e d now b =
      elim (Option-cases (lookup (get_msg_id e) c.active_messages)) [
        | inl unknown_id ↦ rw (unknown_id, handle_para_chunk) b
        | inr (s, found) ↦
            rw (found, handle_para_chunk) (add_chunk-IsBounded c h _ d now _ s found b)
      ]

  dispatch-IsBounded :
      (k : Kind) (c : Client) (h : Hub) (e : Event) (d : Bytes) (now : ℕ)
      → IsBounded c
      → Ensures IsBounded (dispatch codec k c h e d now)
  unfolding dispatch handle_msg_end
  dispatch-IsBounded msg_start c h e d now b = msg_start-IsBounded c h e d now b
  dispatch-IsBounded para_start c h e d now b = para_start-IsBounded c h e d now b
  dispatch-IsBounded para_chunk c h e d now b = para_chunk-IsBounded c h e d now b
  dispatch-IsBounded para_end c h e d now b = para_end-IsBounded c h e d b
  dispatch-IsBounded msg_end c h e d now b =
      forward-Ensures IsBounded _ h d (drop_state-IsBounded c _ b)
  dispatch-IsBounded ack c h e d now b = forward-Ensures IsBounded c h d b
  dispatch-IsBounded unknown c h e d now b = b

  -- Whatever bytes a client sends, if its handler returns, then still at most 100 messages are
  -- under way, each listed once, with no more bytes taken in than the client's limit and a current
  -- paragraph below 512.
  pub handle_message-IsBounded :
      (c : Client) (h : Hub) (d : Bytes) (now : ℕ)
      → IsBounded c
      → Ensures IsBounded (handle_message codec c h d now)
  unfolding handle_message
  handle_message-IsBounded c h d now b = elim (Option-cases (codec.unmarshal d)) [
    | inl malformed ↦ rw (malformed, handle_message) b
    | inr (e, parsed) ↦
        rw (parsed, handle_message) (dispatch-IsBounded (kind_of e.kind) c h e d now b)
  ]

pub new_client-IsBounded :
    (id : ℕ) (device ip : Bytes) (limit : ℤ) → IsBounded (new_client id device ip limit)
unfolding new_client
new_client-IsBounded id device ip limit = record {
  distinct = tt;
  few = omega arith;
  in_budget = tt;
}
