-- ===== src/Realtime/Client/Spec.antt =====
-- internal/realtime/client.go: the protocol of a connection as a specification, which forgets how
-- the messages under way are stored, their order, and the paragraphs in them.
use fileflow.Common.{
  Bool, Bytes, Option, [], codes, false, if◌then◌else◌, int_leb, leb, length, lookup, ltb, none,
  not, pos, some, true, ℕ, ℤ, ◌+◌, ◌-◌, ◌==◌, bytes_key,
}
use fileflow.Realtime.Events.{Event, get_chunk_text, get_msg_id, get_para_index}
use fileflow.Realtime.Client.{
  Client, Kind, MessageState, ack, kind_of, msg_end, msg_start, para_chunk, para_end, para_start,
  unknown,
}

-- The bytes taken in of each message under way, and the number of these messages.
pub record View : Type 0 where
  pub taken : Bytes → Option ℕ
  pub active : ℕ

-- What the server does with a message: it goes to a peer, it is answered with a `send_fail` of that
-- reason, or nothing happens.
pub data Verdict : Type 0 where
  relayed ignored : Verdict
  refused : Bytes → Verdict

abbrev pub is_some : Option ℕ → Bool
is_some (some n) = true
is_some none = false

abbrev pub no_messages : View
no_messages = record { taken = λ id. none; active = 0 }

-- The message has now brought `n` bytes.
abbrev pub enter : Bytes → ℕ → View → View
enter id n v = record {
  taken = λ j. if id == j then some n else v.taken j;
  active = if is_some (v.taken id) then v.active else v.active + 1;
}

abbrev pub finish : Bytes → View → View
finish id v = record {
  taken = λ j. if id == j then none else v.taken j;
  active = if is_some (v.taken id) then v.active - 1 else v.active;
}

abbrev pub refuse : Bytes → Bytes → View → Verdict × View
refuse id reason v = (refused reason, finish id v)

abbrev pub judge_start : Bytes → Bool → View → Verdict × View
judge_start id peer v =
    if id == []
    then (ignored, v)
    else if not peer
    then refuse id (codes "peer_offline") v
    else if leb 100 v.active
    then refuse id (codes "too_many_active_messages") v
    else (relayed, enter id 0 v)

-- The rules for a part of a message get the bytes that the message has brought, if it is under way.
abbrev pub judge_para : Bytes → ℤ → View → Option ℕ → Verdict × View
judge_para id i v none = (ignored, v)
judge_para id i v (some n) =
    if int_leb (pos 512) i then refuse id (codes "max_paragraphs_exceeded") v else (relayed, v)

abbrev pub judge_chunk : Bytes → ℕ → ℕ → View → Option ℕ → Verdict × View
judge_chunk id size limit v none = (ignored, v)
judge_chunk id size limit v (some n) =
    if ltb 4096 size
    then refuse id (codes "chunk_too_large") v
    else if ltb limit (n + size)
    then refuse id (codes "message_too_large") v
    else (relayed, enter id (n + size) v)

abbrev pub judge_end : View → Option ℕ → Verdict × View
judge_end v none = (ignored, v)
judge_end v (some n) = (relayed, v)

abbrev pub judge_kind : Kind → ℕ → Bool → View → Event → Verdict × View
judge_kind msg_start limit peer v e = judge_start (get_msg_id e) peer v
judge_kind para_start limit peer v e =
    judge_para (get_msg_id e) (get_para_index e) v (v.taken (get_msg_id e))
judge_kind para_chunk limit peer v e =
    judge_chunk (get_msg_id e) (length (get_chunk_text e)) limit v (v.taken (get_msg_id e))
judge_kind para_end limit peer v e = judge_end v (v.taken (get_msg_id e))
judge_kind msg_end limit peer v e = (relayed, finish (get_msg_id e) v)
judge_kind ack limit peer v e = (relayed, v)
judge_kind unknown limit peer v e = (ignored, v)

-- The limit is the client's for the bytes of one message; `peer` says whether another client is
-- connected; `none` stands for bytes that are no event.
unfoldable pub judge : ℕ → Bool → View → Option Event → Verdict × View
judge limit peer v none = (ignored, v)
judge limit peer v (some e) = judge_kind (kind_of e.kind) limit peer v e

-- The view of what a client stores.
abbrev pub total_of : Option MessageState → Option ℕ
total_of none = none
total_of (some s) = some s.total_bytes

abbrev pub view : Client → View
view c = record {
  taken = λ id. total_of (lookup id c.active_messages);
  active = length c.active_messages;
}
