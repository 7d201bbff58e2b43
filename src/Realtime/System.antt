-- ===== src/Realtime/System.antt =====
-- internal/realtime with the end of handleWebSocket in internal/handler/api.go: the hub and all
-- connections as one transition system. A step is one turn of a goroutine: a case of `Hub.Run`, one
-- message of a `ReadPump`, one action of a `WritePump`. The limit on a client's rate only makes its
-- read loop end, which it may at any time. The loops of a connection start when `Run` has
-- handled its registration.
pub mod Wired
pub mod Reach
pub mod Slots
pub mod Effect
pub mod Order
pub mod Flow
pub mod Pair
pub mod Flood
pub mod Crash
mod Tests
use fileflow.Common.{
  Bool, Bytes, List, [], false, if◌then◌else◌, length, some, suc, true, ℕ, ℤ, ◌++◌, ◌+◌, ◌==◌, ◌∷◌,
  ◌≡◌, bytes_key, nat_key,
}
use fileflow.Limit.{ConnLimiter, decrement, increment, new_conn_limiter}
use fileflow.Realtime.Events.{Codec}
use fileflow.Realtime.Hub.{
  Chan, Hub, member, new_hub, on_register, on_stop, on_unregister, set_chan,
}
use fileflow.Realtime.Client.{Client, handle_message, new_client}
use fileflow.Realtime.Hub.Delivery.{IsUnique}
use fileflow.Realtime.Client.Write.{Frame, close_frame, ping_frame, text_frame}

-- Where a `WritePump` stands: before `select`, with the message it has received, in the loop over
-- the `n` messages that it still takes, or after its return.
pub data Phase : Type 0 where
  idle : Phase
  received : Bytes → Phase
  draining : ℕ → Bytes → Phase
  stopped : Phase

pub record Pump : Type 0 where
  pub phase : Phase
  pub frames : List Frame

abbrev pub log_frame : Pump → Frame → Phase → Pump
log_frame p f phase = record { phase = phase; frames = p.frames ++ f ∷ [] }

-- The actions of a `WritePump` on its channel, with the errors that the library may report.
pub data Writes (p : Pump) (ch : Chan) (p' : Pump) (ch' : Chan) : Type 0 where
  takes_first :
      (m : Bytes) (ms : List Bytes)
      → p.phase ≡ idle
      → ch.queue ≡ m ∷ ms
      → p' ≡ record p { phase = received m }
      → ch' ≡ record ch { queue = ms }
      → Writes p ch p' ch'
  opens_no_writer :
      (m : Bytes)
      → p.phase ≡ received m
      → p' ≡ record p { phase = stopped }
      → ch' ≡ ch
      → Writes p ch p' ch'
  sees_close :
      p.phase ≡ idle
      → ch.queue ≡ []
      → ch.closed ≡ true
      → p' ≡ log_frame p close_frame stopped
      → ch' ≡ ch
      → Writes p ch p' ch'
  counts :
      (m : Bytes)
      → p.phase ≡ received m
      → p' ≡ record p { phase = draining (length ch.queue) m }
      → ch' ≡ ch
      → Writes p ch p' ch'
  drains :
      (n : ℕ) (written m : Bytes) (ms : List Bytes)
      → p.phase ≡ draining (suc n) written
      → ch.queue ≡ m ∷ ms
      → p' ≡ record p { phase = draining n (written ++ 10 ∷ m) }
      → ch' ≡ record ch { queue = ms }
      → Writes p ch p' ch'
  flushes :
      (written : Bytes)
      → p.phase ≡ draining 0 written
      → p' ≡ log_frame p (text_frame written) idle
      → ch' ≡ ch
      → Writes p ch p' ch'
  flushes_not :
      (written : Bytes)
      → p.phase ≡ draining 0 written
      → p' ≡ record p { phase = stopped }
      → ch' ≡ ch
      → Writes p ch p' ch'
  pings : p.phase ≡ idle → p' ≡ log_frame p ping_frame idle → ch' ≡ ch → Writes p ch p' ch'
  pings_not : p.phase ≡ idle → p' ≡ record p { phase = stopped } → ch' ≡ ch → Writes p ch p' ch'

pub record System : Type 0 where
  pub hub : Hub
  -- `Run` has not returned.
  pub running : Bool
  pub conns : ConnLimiter
  -- The connections that have a slot and wait for `h.register`.
  pub joining : List Client
  -- The connections whose `ReadPump` runs.
  pub readers : List Client
  -- The `ReadPump`s that have given their slot back and wait for `h.unregister`.
  pub leaving : List ℕ
  pub pumps : ℕ → Pump
  -- The number for the next client.
  pub next_id : ℕ

abbrev pub set_pump : (ℕ → Pump) → ℕ → Pump → ℕ → Pump
set_pump pumps c p j = if j == c then p else pumps j

-- The server before its first connection.
abbrev pub new_system : (max_per_ip max_global : ℕ) → System
new_system max_per_ip max_global = record {
  hub = new_hub;
  running = true;
  conns = new_conn_limiter max_per_ip max_global;
  joining = [];
  readers = [];
  leaving = [];
  pumps = λ j. record { phase = idle; frames = [] };
  next_id = 0;
}

abbrev pub after_admission : System → ConnLimiter → Bytes → Bytes → ℤ → System
after_admission s conns device_id ip limit = record s {
  conns = conns;
  joining = new_client s.next_id device_id ip limit ∷ s.joining;
  next_id = s.next_id + 1;
}

pub data Move (codec : Codec) (s s' : System) : Type 0 where
  admits :
      (device_id ip : Bytes) (limit : ℤ) (conns : ConnLimiter)
      → increment s.conns ip ≡ (true, conns)
      → s' ≡ after_admission s conns device_id ip limit
      → Move codec s s'
  registers :
      (front back : List Client) (c : Client) (now : ℕ) (h : Hub)
      → s.running ≡ true
      → s.joining ≡ front ++ c ∷ back
      → on_register codec s.hub c.id now ≡ some h
      → s' ≡ record s { hub = h; joining = front ++ back; readers = c ∷ s.readers }
      → Move codec s s'
  reads :
      (front back : List Client) (c c' : Client) (d : Bytes) (now : ℕ) (h : Hub)
      → s.readers ≡ front ++ c ∷ back
      → handle_message codec c s.hub d now ≡ some (c', h)
      → s' ≡ record s { hub = h; readers = front ++ c' ∷ back }
      → Move codec s s'
  hangs_up :
      (front back : List Client) (c : Client)
      → s.readers ≡ front ++ c ∷ back
      → s' ≡ record s {
        conns = decrement s.conns c.ip;
        readers = front ++ back;
        leaving = c.id ∷ s.leaving;
      }
      → Move codec s s'
  unregisters :
      (front back : List ℕ) (c now : ℕ) (h : Hub)
      → s.running ≡ true
      → s.leaving ≡ front ++ c ∷ back
      → on_unregister codec s.hub c now ≡ some h
      → s' ≡ record s { hub = h; leaving = front ++ back }
      → Move codec s s'
  drops :
      (front back : List ℕ) (c now : ℕ) (h : Hub)
      → s.running ≡ true
      → s.hub.pending ≡ front ++ c ∷ back
      → on_unregister codec (record (s.hub) { pending = front ++ back }) c now ≡ some h
      → s' ≡ record s { hub = h }
      → Move codec s s'
  writes :
      (c : ℕ) (p : Pump) (ch : Chan)
      → Writes (s.pumps c) (s.hub.chans c) p ch
      → s' ≡ record s { hub = set_chan s.hub c ch; pumps = set_pump s.pumps c p }
      → Move codec s s'
  reorders :
      (cs : List ℕ)
      → IsUnique cs
      → ((c : ℕ) → member c cs ≡ member c s.hub.clients)
      → s' ≡ record s { hub = record (s.hub) { clients = cs } }
      → Move codec s s'
  stops :
      (h : Hub)
      → s.running ≡ true
      → on_stop s.hub ≡ some h
      → s' ≡ record s { hub = h; running = false }
      → Move codec s s'

pub data Run (codec : Codec) (s : System) : System → Type 0 where
  at_start : Run codec s s
  and_then : {t u : System} → Run codec s t → Move codec t u → Run codec s u
