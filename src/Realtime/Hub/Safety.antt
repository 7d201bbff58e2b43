-- ===== src/Realtime/Hub/Safety.antt =====
-- internal/realtime/hub.go: the hub's own operations never send on, or close, a closed channel.
use fileflow.Common.{
  All, Bool, Bytes, List, Option, [], ap, arith, none, refl, some, subst, sym, true, ℕ, ◌∙◌, ◌∷◌,
  ◌≡◌, ◌≢◌, nat_key,
}
use fileflow.Realtime.Events.{Codec}
use fileflow.Realtime.Hub.{
  Hub, broadcast, member, new_hub, on_register, on_stop, on_unregister, send_to_peer, set_chan,
}
use fileflow.Realtime.Hub.Delivery.{IsOpen, IsUnique, member-All}
use fileflow.Realtime.Hub.Soundness.{
  IsSound, Keeps-IsSound, broadcast-Keeps, close_loop-total, on_register-IsSound,
  on_unregister-Keeps, send_to_peer-Keeps,
}

-- What may happen to the hub: a new client with its own channel is registered, any client is
-- handed to `unregister`, a client's `ReadPump` sends to its peer, the server broadcasts, a client's
-- `WritePump` takes from its channel, `range` over the set starts to visit it in another order, and
-- the hub stops.
pub data Step (codec : Codec) (h h' : Hub) : Type 0 where
  registers : (c now : ℕ) → IsOpen h c → on_register codec h c now ≡ some h' → Step codec h h'
  unregisters : (c now : ℕ) → on_unregister codec h c now ≡ some h' → Step codec h h'
  sends :
      (c : ℕ) (m : Bytes) (taken : Bool) → send_to_peer h c m ≡ some (taken, h') → Step codec h h'
  broadcasts : (m : Bytes) (exclude : Option ℕ) → broadcast h m exclude ≡ some h' → Step codec h h'
  writes :
      (c : ℕ) (rest : List Bytes)
      → h' ≡ set_chan h c (record (h.chans c) { queue = rest })
      → Step codec h h'
  reorders :
      (cs : List ℕ)
      → IsUnique cs
      → ((c : ℕ) → member c cs ≡ member c h.clients)
      → h' ≡ record h { clients = cs }
      → Step codec h h'
  stops : on_stop h ≡ some h' → Step codec h h'

pub data Reach (codec : Codec) (h : Hub) : Hub → Type 0 where
  here : Reach codec h h
  next : {g h' : Hub} → Reach codec h g → Step codec g h' → Reach codec h h'

All-IsOpen_of_member :
    (h : Hub) (cs : List ℕ) → ((c : ℕ) → member c cs ≡ true → IsOpen h c) → All (IsOpen h) cs
unfolding member
All-IsOpen_of_member h [] k = tt
All-IsOpen_of_member h (c ∷ cs) k =
    (k c (ground arith), All-IsOpen_of_member h cs (λ j e. k j (ground (arith, e))))

pub reorders-IsSound :
    (h : Hub) (cs : List ℕ)
    → IsUnique cs
    → ((c : ℕ) → member c cs ≡ member c h.clients)
    → IsSound h
    → IsSound (record h { clients = cs })
reorders-IsSound h cs u same s = record {
  unique = u;
  all_open =
      All-IsOpen_of_member (record h { clients = cs }) cs
        (λ c m. member-All (IsOpen h) c h.clients s.all_open (sym (same c) ∙ m));
}

some-injective' : {A : Type 0} {a b : A} → some a ≡ some b → a ≡ b
some-injective' e = cc

Step-IsSound : (codec : Codec) (h h' : Hub) → Step codec h h' → IsSound h → IsSound h'
unfolding on_stop
Step-IsSound codec h h' (registers c now o e) s =
    let (g, f, sound) = on_register-IsSound codec h c now o s in
    subst IsSound (some-injective' (sym f ∙ e)) sound
Step-IsSound codec h h' (unregisters c now e) s =
    let (g, f, _, sound) = on_unregister-Keeps codec h c now s in
    subst IsSound (some-injective' (sym f ∙ e)) sound
Step-IsSound codec h h' (sends c m taken e) s =
    let (b, g, f, k) = send_to_peer-Keeps h c m s in
    let q : g ≡ h' = cc in subst IsSound q (Keeps-IsSound h g k s)
Step-IsSound codec h h' (broadcasts m exclude e) s =
    let (g, f, k) = broadcast-Keeps h m exclude s in
    subst IsSound (some-injective' (sym f ∙ e)) (Keeps-IsSound h g k s)
Step-IsSound codec h h' (writes c rest e) s = rw e (Keeps-IsSound h _ (refl, λ j. ground arith) s)
Step-IsSound codec h h' (reorders cs u same e) s = rw e (reorders-IsSound h cs u same s)
Step-IsSound codec h h' (stops e) s =
    let (g, f, none_left, _) = close_loop-total h.clients h s.unique s.all_open in
    let q : g ≡ h' = some-injective' (sym f ∙ e) in
    let empty : h'.clients ≡ [] = ap (λ (x : Hub). x.clients) (sym q) ∙ none_left in
    record { unique = rw empty tt; all_open = rw empty tt }

Reach-IsSound : (codec : Codec) (h h' : Hub) → IsSound h → Reach codec h h' → IsSound h'
Reach-IsSound codec h h' s here = s
Reach-IsSound codec h h' s (next r st) = Step-IsSound codec _ _ st (Reach-IsSound codec h _ s r)

pub new_hub-IsSound : IsSound new_hub
unfolding new_hub
new_hub-IsSound = record { unique = tt; all_open = tt }

-- None of the hub's operations panics.
pub record NoPanic (codec : Codec) (h : Hub) : Type 0 where
  pub register : (c now : ℕ) → IsOpen h c → on_register codec h c now ≢ none
  pub unregister : (c now : ℕ) → on_unregister codec h c now ≢ none
  pub send : (c : ℕ) (m : Bytes) → send_to_peer h c m ≢ none
  pub broadcast_all : (m : Bytes) (exclude : Option ℕ) → broadcast h m exclude ≢ none
  pub stop : on_stop h ≢ none

-- In every state that a new hub can reach, whatever order `range` visits the clients in,
-- registering a client whose channel is open, unregistering any client, sending to a peer,
-- broadcasting and stopping do not panic: no operation of the hub sends on a closed channel or
-- closes one twice.
pub Reach-NoPanic : (codec : Codec) (h : Hub) → Reach codec new_hub h → NoPanic codec h
unfolding on_stop
Reach-NoPanic codec h r =
    let s = Reach-IsSound codec new_hub h new_hub-IsSound r in
    record {
      register = λ c now o e. let (g, f, _) = on_register-IsSound codec h c now o s in cc;
      unregister = λ c now e. let (g, f, _, _) = on_unregister-Keeps codec h c now s in cc;
      send = λ c m e. let (b, g, f, _) = send_to_peer-Keeps h c m s in cc;
      broadcast_all = λ m exclude e. let (g, f, _) = broadcast-Keeps h m exclude s in cc;
      stop = λ e. let (g, f, _, _) = close_loop-total h.clients h s.unique s.all_open in cc;
    }
