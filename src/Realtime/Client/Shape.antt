-- ===== src/Realtime/Client/Shape.antt =====
-- internal/realtime/client.go: every handler ends in one of three ways, so what holds of these holds
-- of all that a message can do: nothing is changed, the message goes to a peer, or its sender is
-- told of a failure.
use fileflow.Common.{
  Bool-cases, Bytes, List, Option-cases, [], inl, inr, int_leb, leb, length, lookup, ltb, none, pos,
  some, ℕ, ℤ, ◌+◌, ◌==◌, bytes_key, nat_key,
}
use fileflow.Realtime.Events.{
  Codec, Event, get_chunk_text, get_msg_id, get_para_index, max_chunk_size, max_paragraphs,
}
use fileflow.Realtime.Hub.{Hub, has_peer}
use fileflow.Realtime.Client.{
  Client, Kind, MessageState, Outcome, ack, add_chunk, dispatch, forward, handle_message,
  handle_msg_end, handle_msg_start, handle_para_chunk, handle_para_end, handle_para_start, kind_of,
  max_active_msgs, msg_end, msg_start, para_chunk, para_end, para_start, report_failure, start_para,
  unknown,
}

module _ (codec : Codec) (c : Client) (h : Hub) (Q : Outcome → Type 0) (unchanged : Q (some (c, h)))
    (sent : (active : List (Bytes × MessageState)) (d : Bytes)
      → Q (forward (record c { active_messages = active }) h d))
    (failed : (active : List (Bytes × MessageState)) (id reason : Bytes) (now : ℕ)
      → Q (report_failure codec (record c { active_messages = active }) h id reason now)) where
  start_para-cases :
      (id d : Bytes) (now : ℕ) (i : ℤ) (s : MessageState) → Q (start_para codec c h id d now i s)
  unfolding start_para
  start_para-cases id d now i s = elim (Bool-cases (int_leb (pos max_paragraphs) i)) [
    | inl beyond ↦ rw beyond (failed c.active_messages id _ now)
    | inr below ↦ rw below (sent _ d)
  ]

  add_chunk-cases :
      (id d : Bytes) (now n : ℕ) (s : MessageState) → Q (add_chunk codec c h id d now n s)
  unfolding add_chunk
  add_chunk-cases id d now n s = elim (Bool-cases (ltb max_chunk_size n)) [
    | inl large ↦ rw large (failed c.active_messages id _ now)
    | inr small ↦ elim (Bool-cases (ltb c.max_message_size (s.total_bytes + n))) [
      | inl over ↦ rw (small, over) (failed _ id _ now)
      | inr within ↦ rw (small, within) (sent _ d)
    ]
  ]

  msg_start-cases : (e : Event) (d : Bytes) (now : ℕ) → Q (handle_msg_start codec c h e d now)
  unfolding handle_msg_start
  msg_start-cases e d now = elim (Bool-cases (get_msg_id e == [])) [
    | inl nameless ↦ rw nameless unchanged
    | inr named ↦ elim (Bool-cases (has_peer h c.id)) [
      | inr alone ↦ rw (named, alone) (failed c.active_messages _ _ now)
      | inl peer ↦ elim (Bool-cases (leb max_active_msgs (length c.active_messages))) [
        | inl many ↦ rw (named, peer, many) (failed c.active_messages _ _ now)
        | inr few ↦ rw (named, peer, few) (sent _ d)
      ]
    ]
  ]

  found-cases :
      (r : MessageState → Outcome) (id : Bytes)
      → ((s : MessageState) → Q (r s))
      → Q (elim (lookup id c.active_messages) [ none ↦ some (c, h) | some s ↦ r s ])
  found-cases r id k = elim (Option-cases (lookup id c.active_messages)) [
    | inl missing ↦ rw missing unchanged
    | inr (s, found) ↦ rw found (k s)
  ]

  dispatch-cases : (k : Kind) (e : Event) (d : Bytes) (now : ℕ) → Q (dispatch codec k c h e d now)
  unfolding dispatch handle_para_start handle_para_chunk handle_para_end handle_msg_end
  dispatch-cases msg_start e d now = msg_start-cases e d now
  dispatch-cases para_start e d now =
      found-cases _ (get_msg_id e) (start_para-cases (get_msg_id e) d now (get_para_index e))
  dispatch-cases para_chunk e d now =
      found-cases _ (get_msg_id e)
        (add_chunk-cases (get_msg_id e) d now (length (get_chunk_text e)))
  dispatch-cases para_end e d now = found-cases _ (get_msg_id e) (λ s. sent _ d)
  dispatch-cases msg_end e d now = sent _ d
  dispatch-cases ack e d now = sent c.active_messages d
  dispatch-cases unknown e d now = unchanged

  pub handle_message-cases : (d : Bytes) (now : ℕ) → Q (handle_message codec c h d now)
  unfolding handle_message
  handle_message-cases d now = elim (Option-cases (codec.unmarshal d)) [
    | inl malformed ↦ rw (malformed, handle_message) unchanged
    | inr (e, parsed) ↦ rw (parsed, handle_message) (dispatch-cases (kind_of e.kind) e d now)
  ]
