-- ===== src/Realtime/Client/Pumps.antt =====
-- internal/realtime/client.go: the loops of a connection. The read loop is given the messages that
-- `ReadMessage` returns, each with the time, until it fails, and runs by itself here; System.antt lets
-- all goroutines take turns, and has the deferred calls of `ReadPump`. `WritePump` joins the messages
-- that wait into one frame.
use mathlib.Core.List.{append-nil}
use fileflow.Common.{
  All, Bytes, List, Option, Without, [], ap, if◌then◌else◌, none, some, split, split-Without,
  split-append, subst, ℕ, ◌++◌, ◌∙◌, ◌∷◌, ◌≡◌, bytes_key, nat_key, ◌>>=◌,
}
use fileflow.Limit.{RateLimit}
use fileflow.Realtime.Events.{Codec}
use fileflow.Realtime.Hub.{Chan, Hub}
use fileflow.Realtime.Client.{Client, Outcome, handle_message}

module _ (codec : Codec) (rl : RateLimit) where
  -- The read loop ends when `ReadMessage` fails or the client's rate limit is exceeded.
  unfoldable pub read_loop : rl.Bucket → Client → Hub → List (Bytes × ℕ) → Outcome
  read_loop b c h [] = some (c, h)
  read_loop b c h ((d, now) ∷ rest) =
      let (ok, b') = rl.allow b now in
      let next = (do (c', h') ← handle_message codec c h d now; read_loop b' c' h' rest) in
      if ok then next else some (c, h)

-- What `WritePump` makes of the messages that wait: one frame, the messages joined by newlines.
-- The browser's script splits it there.
unfoldable pub frame_rest : List Bytes → Bytes
frame_rest [] = []
frame_rest (m ∷ ms) = 10 ∷ (m ++ frame_rest ms)

-- `some frame` for a message that was taken, with all that waited behind it; `none` for the close
-- message that a closed and empty channel gives.
unfoldable pub next_frame : Chan → Option Bytes
next_frame ch = elim ch.queue [ [] ↦ none | m ∷ ms ↦ some (m ++ frame_rest ms) ]

split_frame :
    (m : Bytes) (ms : List Bytes)
    → Without 10 m
    → All (Without 10) ms
    → split 10 (m ++ frame_rest ms) ≡ m ∷ ms
unfolding frame_rest
split_frame m [] w ws = rw append-nil (split-Without 10 m w)
split_frame m (n ∷ ms) w (v, ws) =
    split-append 10 m (n ++ frame_rest ms) w ∙ ap (◌∷◌ m) (split_frame n ms v ws)

-- If no message that waits holds a newline, the frame that `WritePump` writes splits at newlines
-- into exactly the messages that waited, in their order.
pub split-next_frame :
    (ch : Chan) (m : Bytes) (ms : List Bytes)
    → ch.queue ≡ m ∷ ms
    → All (Without 10) ch.queue
    → (f : Bytes) × (next_frame ch ≡ some f) × (split 10 f ≡ ch.queue)
unfolding next_frame
split-next_frame ch m ms e w =
    let w' : All (Without 10) (m ∷ ms) = subst (All (Without 10)) e w in
    (m ++ frame_rest ms, rw (e, next_frame), rw e (split_frame m ms w'.0 w'.1))
