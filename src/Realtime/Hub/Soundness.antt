-- ===== src/Realtime/Hub/Soundness.antt =====
-- internal/realtime/hub.go: what the hub's operations keep of a hub whose channels are open.
use fileflow.Common.{
  All, Bool, Bool-cases, Bytes, List, Option, Option-cases, [], arith, false, if◌then◌else◌, inl,
  inr, nat_beq, none, refl, some, subst, true, ℕ, ◌||◌, ◌∙◌, ◌∷◌, ◌≡◌, ◌≢◌, nat_key,
}
use fileflow.Realtime.Events.{Codec, event_presence, new_event, presence}
use fileflow.Realtime.Hub.{
  Hub, broadcast, broadcast_presence, close_chan, close_loop, member, on_register, on_unregister,
  online_count, remove, send_to_peer, set_chan,
}
use fileflow.Realtime.Hub.Delivery.{
  IsOpen, IsOpen-set_chan, IsUnique, broadcast-Broadcasts, enqueue, member-All,
  send_to_peer-Delivers,
}

-- Each connected client stands in the set once, and its channel is open.
pub record IsSound (h : Hub) : Type 0 where
  pub unique : IsUnique h.clients
  pub all_open : All (IsOpen h) h.clients

abbrev pub Keeps : Hub → Hub → Type 0
Keeps h h' = (h'.clients ≡ h.clients) × ((j : ℕ) → (h'.chans j).closed ≡ (h.chans j).closed)

All-IsOpen_of_same :
    (h h' : Hub) (cs : List ℕ)
    → ((j : ℕ) → (h'.chans j).closed ≡ (h.chans j).closed)
    → All (IsOpen h) cs
    → All (IsOpen h') cs
All-IsOpen_of_same h h' [] e o = tt
All-IsOpen_of_same h h' (c ∷ cs) e (o, os) = (e c ∙ o, All-IsOpen_of_same h h' cs e os)

pub Keeps-IsSound : (h h' : Hub) → Keeps h h' → IsSound h → IsSound h'
Keeps-IsSound h h' (same, e) s = record {
  unique = rw same s.unique;
  all_open = rw same (All-IsOpen_of_same h h' h.clients e s.all_open);
}

pub enqueue-Keeps : (h : Hub) (c : ℕ) (m : Bytes) → Keeps h (enqueue h c m)
enqueue-Keeps h c m = (refl, λ j. ground arith)

pub send_to_peer-Keeps :
    (h : Hub) (sender : ℕ) (m : Bytes)
    → IsSound h
    → (b : Bool) × (h' : Hub) × (send_to_peer h sender m ≡ some (b, h')) × Keeps h h'
send_to_peer-Keeps h sender m s = elim (send_to_peer-Delivers h sender m s.all_open) [
  | inl (c, taker, e) ↦ (true, enqueue h c m, e, enqueue-Keeps h c m)
  | inr (full, e) ↦ (false, h, e, (refl, λ j. refl))
]

pub broadcast-Keeps :
    (h : Hub) (m : Bytes) (exclude : Option ℕ)
    → IsSound h
    → (h' : Hub) × (broadcast h m exclude ≡ some h') × Keeps h h'
broadcast-Keeps h m exclude s =
    let (h', e, b) = broadcast-Broadcasts h m exclude s.all_open s.unique in
    (h', e, (b.clients, λ j. rw (b.chans j) (ground arith)))

module _ (codec : Codec) where
  pub broadcast_presence-Keeps :
      (h : Hub) (now : ℕ)
      → IsSound h
      → (h' : Hub) × (broadcast_presence codec h now ≡ some h') × Keeps h h'
  unfolding broadcast_presence
  broadcast_presence-Keeps h now s =
      elim (Option-cases
        (codec.marshal (new_event event_presence (presence (online_count h) 2) now))) [
          | inl failed ↦ (h, rw (failed, broadcast_presence), (refl, λ j. refl))
          | inr (m, done) ↦
              let (h', e, k) = broadcast-Keeps h m none s in
              (h', rw (done, broadcast_presence) e, k)
        ]

fresh_of_not_member : (c : ℕ) (cs : List ℕ) → member c cs ≡ false → All (λ j. j ≢ c) cs
unfolding member
fresh_of_not_member c [] e = tt
fresh_of_not_member c (j ∷ js) e = (ground arith, fresh_of_not_member c js (ground arith))

remove-All {ℓ} : (P : ℕ → Type ℓ) (c : ℕ) (cs : List ℕ) → All P cs → All P (remove c cs)
unfolding remove
remove-All P c [] h = tt
remove-All P c (j ∷ js) (p, h) = elim (Bool-cases (nat_beq j c)) [
  | inl same ↦ rw same h
  | inr other ↦ rw other (p, remove-All P c js h)
]

remove-IsUnique : (c : ℕ) (cs : List ℕ) → IsUnique cs → IsUnique (remove c cs)
unfolding remove
remove-IsUnique c [] u = tt
remove-IsUnique c (j ∷ js) (f, u) = elim (Bool-cases (nat_beq j c)) [
  | inl same ↦ rw same u
  | inr other ↦ rw other (remove-All (λ i. i ≢ j) c js f, remove-IsUnique c js u)
]

pub remove_ne : (c : ℕ) (cs : List ℕ) → IsUnique cs → All (λ j. j ≢ c) (remove c cs)
unfolding remove
remove_ne c [] u = tt
remove_ne c (j ∷ js) (f, u) = elim (Bool-cases (nat_beq j c)) [
  | inl same ↦ let q : j ≡ c = ground arith in rw same (subst (λ x. All (λ i. i ≢ x) js) q f)
  | inr other ↦ rw other (ground arith, remove_ne c js u)
]

-- The hub after a client was taken out and its channel closed.
abbrev pub dropped : Hub → ℕ → Hub
dropped h c =
    set_chan (record h { clients = remove c h.clients }) c (record (h.chans c) { closed = true })

IsOpen-dropped :
    (h : Hub) (c : ℕ) (cs : List ℕ)
    → All (λ j. j ≢ c) cs
    → All (IsOpen h) cs
    → All (IsOpen (dropped h c)) cs
IsOpen-dropped h c [] n o = tt
IsOpen-dropped h c (j ∷ js) (n, ns) (o, os) = (ground arith, IsOpen-dropped h c js ns os)

pub dropped-IsSound : (h : Hub) (c : ℕ) → IsSound h → IsSound (dropped h c)
dropped-IsSound h c s = record {
  unique = remove-IsUnique c h.clients s.unique;
  all_open =
      IsOpen-dropped h c (remove c h.clients) (remove_ne c h.clients s.unique)
        (remove-All (IsOpen h) c h.clients s.all_open);
}

-- The hub after a client was put into the set.
abbrev pub joined : Hub → ℕ → Hub
joined h c = record h { clients = if member c h.clients then h.clients else c ∷ h.clients }

pub joined-IsSound : (h : Hub) (c : ℕ) → IsOpen h c → IsSound h → IsSound (joined h c)
joined-IsSound h c o s = elim (Bool-cases (member c h.clients)) [
  | inl old ↦ rw old s
  | inr new ↦ rw new (record {
    unique = (fresh_of_not_member c h.clients new, s.unique);
    all_open = (o, s.all_open);
  })
]

module _ (codec : Codec) where
  pub on_register-Keeps :
      (h : Hub) (c now : ℕ)
      → IsOpen h c
      → IsSound h
      → (h' : Hub) × (on_register codec h c now ≡ some h') × Keeps (joined h c) h' × IsSound h'
  unfolding on_register
  on_register-Keeps h c now o s =
      let sound = joined-IsSound h c o s in
      let (h', e, k) = broadcast_presence-Keeps codec (joined h c) now sound in
      (h', e, k, Keeps-IsSound _ h' k sound)

  pub on_register-IsSound :
      (h : Hub) (c now : ℕ)
      → IsOpen h c
      → IsSound h
      → (h' : Hub) × (on_register codec h c now ≡ some h') × IsSound h'
  on_register-IsSound h c now o s =
      let (h', e, _, sound) = on_register-Keeps h c now o s in (h', e, sound)

  -- A connected client is taken out and its channel closed; for another nothing is closed. Then the
  -- others are told.
  pub on_unregister-Keeps :
      (h : Hub) (c now : ℕ)
      → IsSound h
      → (h' : Hub) × (on_unregister codec h c now ≡ some h')
        × Keeps (if member c h.clients then dropped h c else h) h'
        × IsSound h'
  unfolding on_unregister close_chan
  on_unregister-Keeps h c now s = elim (Bool-cases (member c h.clients)) [
    | inl found ↦
        let open_c : IsOpen h c = member-All (IsOpen h) c h.clients s.all_open found in
        let d = dropped-IsSound h c s in
        let (h', e, k) = broadcast_presence-Keeps codec (dropped h c) now d in
        (h', rw (found, on_unregister, open_c) e, rw found k, Keeps-IsSound _ h' k d)
    | inr missing ↦
        let (h', e, k) = broadcast_presence-Keeps codec h now s in
        (h', rw (missing, on_unregister) e, rw missing k, Keeps-IsSound _ h' k s)
  ]

pub close_loop-total :
    (cs : List ℕ) (h : Hub)
    → IsUnique cs
    → All (IsOpen h) cs
    → (h' : Hub) × (close_loop cs h ≡ some h')
      × (h'.clients ≡ [])
      × ((j : ℕ) → (h'.chans j).closed ≡ (member j cs || (h.chans j).closed))
unfolding close_loop close_chan member
close_loop-total [] h u o = (record h { clients = [] }, refl, refl, λ j. refl)
close_loop-total (c ∷ cs) h (f, u) (o, os) =
    let shut = set_chan h c (record (h.chans c) { closed = true }) in
    let (h', e, none_left, closed) =
      close_loop-total cs shut u (IsOpen-set_chan h none c _ h.pending cs f os) in
    (h', rw (close_chan, o) e, none_left, λ j. rw (closed j) (ground arith))
