-- ===== src/Realtime/Hub/Queues.antt =====
-- internal/realtime/hub.go: what the hub's operations do to the messages that wait in a channel.
use mathlib.Core.List.{append-nil, append_assoc}
use fileflow.Common.{
  Bool, Bool-cases, Bytes, List, Option, Option-cases, [], arith, inl, inr, length, length-append,
  nat_beq, none, none_is_not_some, refl, some, subst, sym, true, ℕ, ◌&&◌, ◌++◌, ◌<◌, ◌∙◌, ◌∷◌, ◌≡◌,
  ◌≤◌, ◌⊎◌, bytes_key, nat_key,
}
use fileflow.Realtime.Events.{Codec, event_presence, new_event, presence}
use fileflow.Realtime.Hub.{
  Chan, Hub, broadcast, broadcast_presence, close_chan, close_loop, member, on_register,
  on_unregister, online_count, send_capacity, send_to_peer, set_chan, try_send,
}
use fileflow.Realtime.Hub.Delivery.{
  IsOpen, broadcast-Broadcasts, enqueue, has_room, member-All, receives, send_to_peer-Delivers,
  try_send_open,
}
use fileflow.Realtime.Hub.Soundness.{
  IsSound, Keeps, dropped, dropped-IsSound, enqueue-Keeps, joined-IsSound,
}

-- A channel has its messages still in front, and holds no more than it can if it did before.
abbrev pub GrowsChan : Chan → Chan → Type 0
GrowsChan ch ch' =
    ((ms : List Bytes) × (ch'.queue ≡ ch.queue ++ ms))
    × (length ch.queue ≤ send_capacity → length ch'.queue ≤ send_capacity)

abbrev pub Grows : Hub → Hub → Type 0
Grows h h' = (j : ℕ) → GrowsChan (h.chans j) (h'.chans j)

pub GrowsChan-same : (ch ch' : Chan) → ch'.queue ≡ ch.queue → GrowsChan ch ch'
GrowsChan-same ch ch' e = (([], e ∙ sym (append-nil ch.queue)), λ le. rw e le)

pub GrowsChan-push :
    (ch ch' : Chan) (m : Bytes)
    → ch'.queue ≡ ch.queue ++ m ∷ []
    → length ch.queue < send_capacity
    → GrowsChan ch ch'
GrowsChan-push ch ch' m e room =
    ((m ∷ [], e), λ le. rw e (ground (arith, length-append ch.queue (m ∷ []))))

pub Grows-refl : (h : Hub) → Grows h h
Grows-refl h j = GrowsChan-same (h.chans j) (h.chans j) refl

pub Grows-trans : (f g h : Hub) → Grows f g → Grows g h → Grows f h
Grows-trans f g h a b j =
    let ((ms, e), le) = a j in
    let ((ns, e'), le') = b j in ((ms ++ ns, e' ∙ rw (e, append_assoc) refl), λ x. le' (le x))

pub Grows-enqueue : (h : Hub) (c : ℕ) (m : Bytes) → has_room h c ≡ true → Grows h (enqueue h c m)
Grows-enqueue h c m room j = elim (Bool-cases (nat_beq j c)) [
  | inl same ↦
      let q : j ≡ c = ground arith in
      GrowsChan-push (h.chans j) ((enqueue h c m).chans j) m (rw (same, q) refl)
        (rw q (ground arith))
  | inr other ↦ GrowsChan-same (h.chans j) ((enqueue h c m).chans j) (rw other refl)
]

-- A send that does not panic changes nothing, or puts the message at the end of an open channel.
pub try_send-cases :
    (h h' : Hub) (c : ℕ) (m : Bytes) (taken : Bool)
    → try_send h c m ≡ some (taken, h')
    → (h' ≡ h) ⊎ ((has_room h c ≡ true) × (h' ≡ enqueue h c m))
unfolding try_send
try_send-cases h h' c m taken e = elim (Bool-cases (h.chans c).closed) [
  | inl shut ↦ absurd (none_is_not_some (rw (try_send, shut) at e))
  | inr open_c ↦
      let q = sym (try_send_open h c m open_c) ∙ e in
      elim (Bool-cases (has_room h c)) [
        | inl room ↦ inr (room, cc (rw room at q))
        | inr full ↦ inl (cc (rw full at q))
      ]
]

pub try_send-Grows :
    (h h' : Hub) (c : ℕ) (m : Bytes) (taken : Bool) → try_send h c m ≡ some (taken, h') → Grows h h'
try_send-Grows h h' c m taken e = elim (try_send-cases h h' c m taken e) [
  | inl same ↦ subst (Grows h) (sym same) (Grows-refl h)
  | inr (room, sent) ↦ subst (Grows h) (sym sent) (Grows-enqueue h c m room)
]

pub try_send-Keeps :
    (h h' : Hub) (c : ℕ) (m : Bytes) (taken : Bool) → try_send h c m ≡ some (taken, h') → Keeps h h'
try_send-Keeps h h' c m taken e = elim (try_send-cases h h' c m taken e) [
  | inl same ↦ subst (Keeps h) (sym same) (refl, λ j. refl)
  | inr (room, sent) ↦ subst (Keeps h) (sym sent) (enqueue-Keeps h c m)
]

pub send_to_peer-Grows :
    (h h' : Hub) (sender : ℕ) (m : Bytes) (taken : Bool)
    → IsSound h
    → send_to_peer h sender m ≡ some (taken, h')
    → Grows h h'
send_to_peer-Grows h h' sender m taken s e = elim (send_to_peer-Delivers h sender m s.all_open) [
  | inl (c, (_, _, room), f) ↦
      let r : enqueue h c m ≡ h' = cc in subst (Grows h) r (Grows-enqueue h c m room)
  | inr (full, f) ↦ let r : h ≡ h' = cc in subst (Grows h) r (Grows-refl h)
]

pub broadcast-Grows :
    (h h' : Hub) (m : Bytes) (exclude : Option ℕ)
    → IsSound h
    → broadcast h m exclude ≡ some h'
    → Grows h h'
broadcast-Grows h h' m exclude s e =
    let (g, f, b) = broadcast-Broadcasts h m exclude s.all_open s.unique in
    let q : g ≡ h' = cc in
    subst (Grows h) q (λ j. elim (Bool-cases (member j h.clients && receives h exclude j)) [
      | inl told ↦
          GrowsChan-push (h.chans j) (g.chans j) m (rw (b.chans j, told) refl) (ground arith)
      | inr other ↦ GrowsChan-same (h.chans j) (g.chans j) (rw (b.chans j, other) refl)
    ])

module _ (codec : Codec) where
  pub broadcast_presence-Grows :
      (h h' : Hub) (now : ℕ) → IsSound h → broadcast_presence codec h now ≡ some h' → Grows h h'
  unfolding broadcast_presence
  broadcast_presence-Grows h h' now s e =
      elim (Option-cases
        (codec.marshal (new_event event_presence (presence (online_count h) 2) now))) [
          | inl failed ↦
              let q : h ≡ h' = cc (rw (broadcast_presence, failed) at e) in
              subst (Grows h) q (Grows-refl h)
          | inr (m, done) ↦ broadcast-Grows h h' m none s (rw (broadcast_presence, done) at e)
        ]

  pub on_register-Grows :
      (h h' : Hub) (c now : ℕ)
      → IsOpen h c
      → IsSound h
      → on_register codec h c now ≡ some h'
      → Grows h h'
  unfolding on_register
  on_register-Grows h h' c now o s e = broadcast_presence-Grows _ h' now (joined-IsSound h c o s) e

  pub on_unregister-Grows :
      (h h' : Hub) (c now : ℕ) → IsSound h → on_unregister codec h c now ≡ some h' → Grows h h'
  unfolding on_unregister close_chan
  on_unregister-Grows h h' c now s e = elim (Bool-cases (member c h.clients)) [
    | inl found ↦
        let open_c : IsOpen h c = member-All (IsOpen h) c h.clients s.all_open found in
        Grows-trans h (dropped h c) h'
          (λ j. GrowsChan-same (h.chans j) ((dropped h c).chans j) (ground arith))
          (broadcast_presence-Grows (dropped h c) h' now (dropped-IsSound h c s)
            (rw (on_unregister, found, open_c) at e))
    | inr missing ↦ broadcast_presence-Grows h h' now s (rw (on_unregister, missing) at e)
  ]

pub close_loop-Grows : (cs : List ℕ) (h h' : Hub) → close_loop cs h ≡ some h' → Grows h h'
unfolding close_loop close_chan
close_loop-Grows [] h h' e =
    let q : record h { clients = [] } ≡ h' = cc in
    subst (Grows h) q (λ j. GrowsChan-same (h.chans j) (h.chans j) refl)
close_loop-Grows (c ∷ cs) h h' e = elim (Bool-cases (h.chans c).closed) [
  | inl shut ↦ absurd (none_is_not_some (rw (close_chan, shut) at e))
  | inr open_c ↦
      let g = set_chan h c (record (h.chans c) { closed = true }) in
      Grows-trans h g h' (λ j. GrowsChan-same (h.chans j) (g.chans j) (ground arith))
        (close_loop-Grows cs g h' (rw (close_chan, open_c) at e))
]
