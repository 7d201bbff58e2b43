-- ===== src/Realtime/Client/Write.antt =====
-- internal/realtime/client.go, `WritePump`: what the server writes to a client's WebSocket. The
-- library's writer is taken to send one frame when it is closed, the bytes written to it in order;
-- each turn of the loop is given which case of `select` runs and whether the library reports an
-- error. Deadlines are part of when it does.
pub mod Stream
pub mod Ends
use fileflow.Common.{
  Bool, Bytes, List, [], false, if◌then◌else◌, length, suc, zero, ℕ, ◌++◌, ◌∷◌, bytes_key, nat_key,
}
use fileflow.Realtime.Hub.{Chan}

pub data Frame : Type 0 where
  text_frame : Bytes → Frame
  ping_frame close_frame : Frame

-- The channel, the frames that were written, in order, and whether the connection is open.
pub record Wire : Type 0 where
  pub chan : Chan
  pub frames : List Frame
  pub connected : Bool

-- A case of `select`, and what the library answers: `opened` for `NextWriter`, `flushed` for
-- `Close` of the writer, `sent` for a ping.
pub data Signal : Type 0 where
  takes : (opened flushed : Bool) → Signal
  ticks : (sent : Bool) → Signal

pub data Turn : Type 0 where
  runs : Wire → Turn
  returns : Wire → Turn

-- The loop `for i := 0; i < n; i++`, on what was written so far; a receive from an empty channel
-- does not happen, since `n` is its length.
unfoldable pub drain : ℕ → Bytes → List Bytes → Bytes × List Bytes
drain zero written queue = (written, queue)
drain (suc n) written [] = (written, [])
drain (suc n) written (m ∷ ms) = drain n (written ++ 10 ∷ m) ms

abbrev pub write_frame : Wire → Frame → Wire
write_frame w f = record w { frames = w.frames ++ f ∷ [] }

-- The message was received; it goes out with all that wait behind it.
unfoldable pub write_batch : Wire → Bytes → List Bytes → Bool → Bool → Turn
write_batch w m ms opened flushed =
    let (written, left) = drain (length ms) m ms in
    let drained = record w { chan = record (w.chan) { queue = left } } in
    if opened
    then if flushed then runs (write_frame drained (text_frame written)) else returns drained
    else returns (record w { chan = record (w.chan) { queue = ms } })

-- On an empty channel that is open the case `takes` waits.
abbrev pub take_turn : Wire → Bool → Bool → List Bytes → Turn
take_turn w opened flushed [] =
    if w.chan.closed then returns (write_frame w close_frame) else runs w
take_turn w opened flushed (m ∷ ms) = write_batch w m ms opened flushed

unfoldable pub write_turn : Wire → Signal → Turn
write_turn w (takes opened flushed) = take_turn w opened flushed w.chan.queue
write_turn w (ticks sent) = if sent then runs (write_frame w ping_frame) else returns w

-- The loop over the turns that the server makes; the deferred call closes the connection.
unfoldable pub write_pump : Wire → List Signal → Turn
write_pump w [] = runs w
write_pump w (s ∷ ss) = elim (write_turn w s) [
  | runs w' ↦ write_pump w' ss
  | returns w' ↦ returns (record w' { connected = false })
]
