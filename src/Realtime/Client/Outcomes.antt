-- ===== src/Realtime/Client/Outcomes.antt =====
-- internal/realtime/client.go: what becomes of a message on every branch of its handler.
use fileflow.Common.{
  Bool, Bool-cases, Bytes, List, Option-cases, [], any, arith, bytes_beq_iff, codes, delete,
  delete-put, false, if◌then◌else◌, inl, inr, int_leb, leb, length, lookup, ltb, none, not, pos,
  refl, some, true, ℕ, ◌+◌, ◌/◌, ◌<◌, ◌==◌, ◌↔◌, ◌∷◌, ◌≡◌, ◌≢◌, ◌≤◌, ◌⊎◌, bytes_key, nat_key,
}
use fileflow.Realtime.Events.{
  Codec, CodecLaws, Event, event_send_fail, get_chunk_text, get_msg_id, get_para_index,
  max_chunk_size, max_paragraphs, new_event, send_fail,
}
use fileflow.Realtime.Hub.{Hub, has_peer, member}
use fileflow.Realtime.Client.{
  Client, MessageState, Outcome, add_chunk, drop_state, forward, fresh_state, handle_msg_start,
  handle_para_chunk, handle_para_start, max_active_msgs, report_failure, set_state, start_para,
}
use fileflow.Realtime.Hub.Delivery.{
  Delivers, IsOpen, enqueue, has_room, send_to_peer-Delivers, try_send_open,
}
use fileflow.Realtime.Hub.Soundness.{IsSound, send_to_peer-Keeps}

has_peer_from :
    (sender : ℕ) (cs : List ℕ)
    → any (λ c. not (c == sender)) cs ≡ true
    → (c : ℕ) × (member c cs ≡ true) × (c ≢ sender)
unfolding member
has_peer_from sender [] e = cc
has_peer_from sender (c ∷ cs) e = elim (Bool-cases (c == sender)) [
  | inr other ↦ (c, ground arith, ground arith)
  | inl same ↦ let (j, m, n) = has_peer_from sender cs (ground arith) in (j, ground arith, n)
]

has_peer_to :
    (sender c : ℕ) (cs : List ℕ)
    → member c cs ≡ true
    → c ≢ sender
    → any (λ j. not (j == sender)) cs ≡ true
unfolding member
has_peer_to sender c [] m n = cc
has_peer_to sender c (j ∷ cs) m n = ground (arith, has_peer_to sender c cs)

-- `HasPeer` says whether a client other than the sender is connected.
pub has_peer_iff :
    (h : Hub) (sender : ℕ)
    → (has_peer h sender ≡ true) ↔ ((c : ℕ) × (member c h.clients ≡ true) × (c ≢ sender))
unfolding has_peer
has_peer_iff h sender =
    (has_peer_from sender h.clients, λ (c, m, n). has_peer_to sender c h.clients m n)

-- The message goes to a peer as `SendToPeer` chooses, and the client is then `c'`.
abbrev pub Accepts : Client → Client → Hub → Bytes → Outcome → Type 0
Accepts c c' h d r =
    (taken : Bool) × (h' : Hub) × Delivers h c.id d h.clients (some (taken, h'))
    × (r ≡ some (c', h'))

-- The message is dropped with its state, and the sender alone is told, if its channel has room.
abbrev pub Refuses : Codec → Client → Hub → Bytes → Bytes → ℕ → Outcome → Type 0
Refuses codec c h id reason now r =
    (m : Bytes) × (codec.marshal (new_event event_send_fail (send_fail id reason) now) ≡ some m)
    × (r ≡ some (drop_state c id, if has_room h c.id then enqueue h c.id m else h))

abbrev pub ParaChunkCases : Codec → Client → Hub → Event → Bytes → ℕ → Type 0
ParaChunkCases codec c h e d now =
    let r = handle_para_chunk codec c h e d now in
    let id = get_msg_id e in
    let n = length (get_chunk_text e) in
    ((lookup id c.active_messages ≡ none) × (r ≡ some (c, h)))
    ⊎ ((s : MessageState) × (lookup id c.active_messages ≡ some s)
        × (((max_chunk_size < n) × Refuses codec c h id (codes "chunk_too_large") now r)
            ⊎ ((n ≤ max_chunk_size)
                × (c.max_message_size < s.total_bytes + n)
                × Refuses codec c h id (codes "message_too_large") now r)
            ⊎ ((n ≤ max_chunk_size)
                × (s.total_bytes + n ≤ c.max_message_size)
                × Accepts c (set_state c id (record s { total_bytes = s.total_bytes + n })) h d r)))

abbrev pub MsgStartCases : Codec → Client → Hub → Event → Bytes → ℕ → Type 0
MsgStartCases codec c h e d now =
    let r = handle_msg_start codec c h e d now in
    let id = get_msg_id e in
    ((id ≡ []) × (r ≡ some (c, h)))
    ⊎ ((id ≢ [])
        × (((has_peer h c.id ≡ false) × Refuses codec c h id (codes "peer_offline") now r)
            ⊎ ((has_peer h c.id ≡ true)
                × (max_active_msgs ≤ length c.active_messages)
                × Refuses codec c h id (codes "too_many_active_messages") now r)
            ⊎ ((has_peer h c.id ≡ true)
                × (length c.active_messages < max_active_msgs)
                × Accepts c (set_state c id (fresh_state id)) h d r)))

abbrev pub ParaStartCases : Codec → Client → Hub → Event → Bytes → ℕ → Type 0
ParaStartCases codec c h e d now =
    let r = handle_para_start codec c h e d now in
    let id = get_msg_id e in
    let i = get_para_index e in
    ((lookup id c.active_messages ≡ none) × (r ≡ some (c, h)))
    ⊎ ((s : MessageState) × (lookup id c.active_messages ≡ some s)
        × (((int_leb (pos max_paragraphs) i ≡ true)
              × Refuses codec c h id (codes "max_paragraphs_exceeded") now r)
            ⊎ ((int_leb (pos max_paragraphs) i ≡ false)
                × Accepts c
                    (set_state c id (record s { current_para = i; para_count = s.para_count + 1 }))
                    h d r)))

module _ (codec : Codec) (laws : CodecLaws codec) (c : Client) (h : Hub) (sound : IsSound h)
    (own : IsOpen h c.id) where
  pub forward-Accepts :
      (active : List (Bytes × MessageState)) (d : Bytes)
      → let c' = record c { active_messages = active } in Accepts c c' h d (forward c' h d)
  forward-Accepts active d =
      let (b, h', e, k) = send_to_peer-Keeps h c.id d sound in
      (b, h', rw e at (send_to_peer-Delivers h c.id d sound.all_open), rw e)

  pub report_failure-Refuses :
      (active : List (Bytes × MessageState)) (id reason : Bytes) (now : ℕ)
      → delete id active ≡ delete id c.active_messages
      → Refuses codec c h id reason now
          (report_failure codec (record c { active_messages = active }) h id reason now)
  unfolding report_failure
  report_failure-Refuses active id reason now same =
      let (m, done) = laws.marshal_send_fail event_send_fail id reason (now / 1_000_000) in
      (
        m,
        done,
        elim (Bool-cases (has_room h c.id)) [
          | inl room ↦ rw (done, report_failure, try_send_open h c.id m own, room, same)
          | inr full ↦ rw (done, report_failure, try_send_open h c.id m own, full, same)
        ],
      )

  -- A chunk for a message that is not under way changes nothing. One of more than 4096 bytes, or
  -- that takes the message's total over the client's limit, is refused with its reason and ends the
  -- message. Any other is counted and goes to a peer.
  pub handle_para_chunk_lem : (e : Event) (d : Bytes) (now : ℕ) → ParaChunkCases codec c h e d now
  unfolding handle_para_chunk add_chunk
  handle_para_chunk_lem e d now =
      let id : Bytes = get_msg_id e in
      let n : ℕ = length (get_chunk_text e) in
      elim (Option-cases (lookup id c.active_messages)) [
        | inl missing ↦ rw (missing, handle_para_chunk) (inl (refl, refl))
        | inr (s, found) ↦
            rw (found, handle_para_chunk)
              (inr (
                s,
                refl,
                elim (Bool-cases (ltb max_chunk_size n)) [
                  | inl large ↦
                      rw large
                        (inl (ground arith, report_failure-Refuses c.active_messages id _ now refl))
                  | inr small ↦ elim (Bool-cases (ltb c.max_message_size (s.total_bytes + n))) [
                    | inl over ↦
                        rw (small, over)
                          (inr (
                            inl (
                              ground arith,
                              ground arith,
                              report_failure-Refuses _ id _ now (delete-put id _ c.active_messages),
                            )))
                    | inr within ↦
                        rw (small, within)
                          (inr (inr (ground arith, ground arith, forward-Accepts _ d)))
                  ]
                ],
              ))
      ]

  -- A start with no message id changes nothing. One that comes while no other client is connected,
  -- or while 100 messages are under way, is refused with its reason, and a message of that id is
  -- no longer under way. Any other puts the message under way anew and goes to a peer.
  pub handle_msg_start_lem : (e : Event) (d : Bytes) (now : ℕ) → MsgStartCases codec c h e d now
  unfolding handle_msg_start
  handle_msg_start_lem e d now =
      let id : Bytes = get_msg_id e in
      elim (Bool-cases (id == [])) [
        | inl nameless ↦ rw nameless (inl ((bytes_beq_iff id []).0 nameless, refl))
        | inr named ↦ rw named (
            inr (
              λ q. cc ((bytes_beq_iff id []).1 q),
              elim (Bool-cases (has_peer h c.id)) [
                | inr alone ↦
                    rw alone (inl (refl, report_failure-Refuses c.active_messages id _ now refl))
                | inl peer ↦ elim (Bool-cases (leb max_active_msgs (length c.active_messages))) [
                  | inl many ↦
                      rw (peer, many)
                        (inr (
                          inl (
                            refl,
                            ground arith,
                            report_failure-Refuses c.active_messages id _ now refl,
                          )))
                  | inr few ↦ rw (peer, few) (inr (inr (refl, ground arith, forward-Accepts _ d)))
                ]
              ],
            ))
      ]

  -- A paragraph of a message that is not under way changes nothing. One whose index is 512 or more
  -- is refused and ends the message. Any other is counted, becomes the current one and goes to a
  -- peer.
  pub handle_para_start_lem : (e : Event) (d : Bytes) (now : ℕ) → ParaStartCases codec c h e d now
  unfolding handle_para_start start_para
  handle_para_start_lem e d now =
      let id : Bytes = get_msg_id e in
      elim (Option-cases (lookup id c.active_messages)) [
        | inl missing ↦ rw (missing, handle_para_start) (inl (refl, refl))
        | inr (s, found) ↦
            rw (found, handle_para_start)
              (inr (
                s,
                refl,
                elim (Bool-cases (int_leb (pos max_paragraphs) (get_para_index e))) [
                  | inl beyond ↦
                      rw beyond (inl (refl, report_failure-Refuses c.active_messages id _ now refl))
                  | inr below ↦ rw below (inr (refl, forward-Accepts _ d))
                ],
              ))
      ]
