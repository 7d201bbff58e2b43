-- ===== src/Realtime/Client/Write/Stream.antt =====
-- internal/realtime/client.go, `WritePump`: the bytes that go out are those that waited.
use mathlib.Core.List.{append-nil, append_assoc}
use fileflow.Common.{
  Bytes, List, [], ap, length, refl, true, ◌++◌, ◌∙◌, ◌∷◌, ◌≡◌, bytes_key, nat_key,
}
use fileflow.Realtime.Client.Pumps.{frame_rest}
use fileflow.Realtime.Client.Write.{
  Frame, Wire, close_frame, drain, ping_frame, runs, text_frame, write_batch,
}

-- Messages as the browser's script reads them, each ended by a newline.
abbrev pub lines : List Bytes → Bytes
lines [] = []
lines (m ∷ ms) = m ++ 10 ∷ lines ms

-- What the frames bring, with the newline that the script puts between two frames.
abbrev pub stream : List Frame → Bytes
stream [] = []
stream (text_frame f ∷ fs) = f ++ 10 ∷ stream fs
stream (ping_frame ∷ fs) = stream fs
stream (close_frame ∷ fs) = stream fs

pub lines-append : (ms ns : List Bytes) → lines (ms ++ ns) ≡ lines ms ++ lines ns
lines-append [] ns = refl
lines-append (m ∷ ms) ns = rw (lines-append ms ns, append_assoc) refl

pub stream-append : (fs gs : List Frame) → stream (fs ++ gs) ≡ stream fs ++ stream gs
stream-append [] gs = refl
stream-append (text_frame f ∷ fs) gs = rw (stream-append fs gs, append_assoc) refl
stream-append (ping_frame ∷ fs) gs = stream-append fs gs
stream-append (close_frame ∷ fs) gs = stream-append fs gs

frame_rest-line : (ms : List Bytes) → frame_rest ms ++ 10 ∷ [] ≡ 10 ∷ lines ms
unfolding frame_rest
frame_rest-line [] = refl
frame_rest-line (m ∷ ms) = rw (append_assoc, frame_rest-line ms) refl

-- The loop takes all that wait and writes the frame of them all.
pub drain_all :
    (written : Bytes) (ms : List Bytes)
    → drain (length ms) written ms ≡ (written ++ frame_rest ms, [])
unfolding drain frame_rest
drain_all written [] = rw append-nil refl
drain_all written (m ∷ ms) = drain_all (written ++ 10 ∷ m) ms ∙ rw append_assoc refl

-- All that has been written and all that waits, as one stream.
abbrev pub traffic : Wire → Bytes
traffic w = stream w.frames ++ lines w.chan.queue

-- The wire after a batch went out.
abbrev pub emptied : Wire → Bytes → List Bytes → Wire
emptied w m ms = record w {
  chan = record (w.chan) { queue = [] };
  frames = w.frames ++ text_frame (m ++ frame_rest ms) ∷ [];
}

pub stream-emptied :
    (w : Wire) (m : Bytes) (ms : List Bytes)
    → stream (emptied w m ms).frames ≡ stream w.frames ++ lines (m ∷ ms)
stream-emptied w m ms =
    stream-append w.frames (text_frame (m ++ frame_rest ms) ∷ [])
    ∙ ap (◌++◌ (stream w.frames))
        (append_assoc m (frame_rest ms) (10 ∷ []) ∙ ap (◌++◌ m) (frame_rest-line ms))

pub write_batch-sent :
    (w : Wire) (m : Bytes) (ms : List Bytes) → write_batch w m ms true true ≡ runs (emptied w m ms)
unfolding write_batch
write_batch-sent w m ms = rw (drain_all m ms) refl
