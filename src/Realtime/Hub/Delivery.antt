-- ===== src/Realtime/Hub/Delivery.antt =====
-- internal/realtime/hub.go: which clients get a message, from `SendToPeer` and `Broadcast`.
use mathlib.Core.List.{append-nil, append_assoc}
use fileflow.Common.{
  All, Bool, Bool-cases, Bytes, List, Option, [], ap, arith, false, if◌then◌else◌, inl, inr, length,
  ltb, nat_beq, not, refl, some, subst, sym, true, ℕ, ◌&&◌, ◌++◌, ◌==◌, ◌∙◌, ◌∷◌, ◌≡◌, ◌≢◌, ◌⊎◌,
  nat_key,
}
use fileflow.Realtime.Hub.{
  Chan, Hub, broadcast, broadcast_loop, broadcast_one, is_excluded, member, send_capacity,
  send_loop, send_to_peer, set_chan, try_send,
}

abbrev pub IsOpen : Hub → ℕ → Type 0
IsOpen h c = (h.chans c).closed ≡ false

abbrev pub has_room : Hub → ℕ → Bool
has_room h c = ltb (length (h.chans c).queue) send_capacity

-- The hub in which a message stands at the end of a client's channel.
abbrev pub enqueue : Hub → ℕ → Bytes → Hub
enqueue h c m = set_chan h c (record (h.chans c) { queue = (h.chans c).queue ++ m ∷ [] })

pub try_send_open :
    (h : Hub) (c : ℕ) (m : Bytes)
    → IsOpen h c
    → try_send h c m ≡ (if has_room h c then some (true, enqueue h c m) else some (false, h))
unfolding try_send
try_send_open h c m o = rw (try_send, o)

abbrev pub IsTaker : Hub → ℕ → List ℕ → ℕ → Type 0
IsTaker h sender cs c = (member c cs ≡ true) × (c ≢ sender) × (has_room h c ≡ true)

abbrev pub Delivers : Hub → ℕ → Bytes → List ℕ → Option (Bool × Hub) → Type 0
Delivers h sender m cs r =
    ((c : ℕ) × IsTaker h sender cs c × (r ≡ some (true, enqueue h c m)))
    ⊎ (All (λ c. (c ≡ sender) ⊎ (has_room h c ≡ false)) cs × (r ≡ some (false, h)))

send_loop-Delivers :
    (h : Hub) (sender : ℕ) (m : Bytes) (cs : List ℕ)
    → All (IsOpen h) cs
    → Delivers h sender m cs (send_loop sender m cs h)
unfolding send_loop member
send_loop-Delivers h sender m [] o = inr (tt, refl)
send_loop-Delivers h sender m (c ∷ cs) (o, os) =
    let rest = send_loop-Delivers h sender m cs os in
    elim (Bool-cases (c == sender)) [
      | inl self ↦ rw (self, send_loop) (ground (arith, rest))
      | inr other ↦ elim (Bool-cases (has_room h c)) [
        | inl room ↦
            rw (other, try_send_open h c m o, room, send_loop)
              (inl (c, (ground arith, ground arith, room), refl))
        | inr full ↦ rw (other, try_send_open h c m o, full, send_loop) (ground (arith, rest))
      ]
    ]

-- While the channels of the connected clients are open, `SendToPeer` puts the message at the end
-- of the channel of one connected client that is not the sender and has room, and says so; or
-- every connected client but the sender is full, and nothing changes.
pub send_to_peer-Delivers :
    (h : Hub) (sender : ℕ) (m : Bytes)
    → All (IsOpen h) h.clients
    → Delivers h sender m h.clients (send_to_peer h sender m)
unfolding send_to_peer
send_to_peer-Delivers h sender m o = send_loop-Delivers h sender m h.clients o

-- Each client stands once in the set.
abbrev pub IsUnique : List ℕ → Type 0
IsUnique [] = Unit {0}
IsUnique (c ∷ cs) = All (λ j. j ≢ c) cs × IsUnique cs

pub member-All {ℓ} : (P : ℕ → Type ℓ) (c : ℕ) (cs : List ℕ) → All P cs → member c cs ≡ true → P c
unfolding member
member-All P c [] h e = cc
member-All P c (j ∷ js) (p, h) e = elim (Bool-cases (j == c)) [
  | inl same ↦ let q : j ≡ c = ground arith in subst P q p
  | inr other ↦ member-All P c js h (ground arith)
]

-- A client that a broadcast reaches.
abbrev pub receives : Hub → Option ℕ → ℕ → Bool
receives h exclude c = not (is_excluded c exclude) && has_room h c

-- The clients that a broadcast finds full.
unfoldable pub overflow : Hub → Option ℕ → List ℕ → List ℕ
overflow h exclude [] = []
overflow h exclude (c ∷ cs) =
    if not (is_excluded c exclude) && not (has_room h c)
    then c ∷ overflow h exclude cs
    else overflow h exclude cs

module _ (h : Hub) (exclude : Option ℕ) (c : ℕ) (ch : Chan) (waiting : List ℕ) where
  overflow-set_chan :
      (cs : List ℕ)
      → All (λ j. j ≢ c) cs
      → overflow (record (set_chan h c ch) { pending = waiting }) exclude cs ≡ overflow h exclude cs
  unfolding overflow
  overflow-set_chan [] n = refl
  overflow-set_chan (j ∷ cs) (n, ns) = ground (arith, overflow-set_chan cs ns)

  pub IsOpen-set_chan :
      (cs : List ℕ)
      → All (λ j. j ≢ c) cs
      → All (IsOpen h) cs
      → All (IsOpen (record (set_chan h c ch) { pending = waiting })) cs
  IsOpen-set_chan [] n o = tt
  IsOpen-set_chan (j ∷ cs) (n, ns) (o, os) = (ground arith, IsOpen-set_chan cs ns os)

abbrev pub chan_after : Hub → Bytes → Option ℕ → List ℕ → ℕ → Chan
chan_after h m exclude cs j =
    if member j cs && receives h exclude j
    then record (h.chans j) { queue = (h.chans j).queue ++ m ∷ [] }
    else h.chans j

pub record Broadcasts (h : Hub) (m : Bytes) (exclude : Option ℕ) (cs : List ℕ) (h' : Hub)
    : Type 0 where
  pub chans : (j : ℕ) → h'.chans j ≡ chan_after h m exclude cs j
  pub clients : h'.clients ≡ h.clients
  pub pending : h'.pending ≡ h.pending ++ overflow h exclude cs

pub member_fresh : (c : ℕ) (cs : List ℕ) → All (λ j. j ≢ c) cs → member c cs ≡ false
unfolding member
member_fresh c [] n = refl
member_fresh c (j ∷ cs) (n, ns) = ground (arith, member_fresh c cs ns)

Sends : Hub → Bytes → Option ℕ → List ℕ → Type 0
Sends h m exclude cs =
    (h' : Hub) × (broadcast_loop m exclude cs h ≡ some h') × Broadcasts h m exclude cs h'

overflow-pending :
    (h : Hub) (exclude : Option ℕ) (waiting : List ℕ) (cs : List ℕ)
    → overflow (record h { pending = waiting }) exclude cs ≡ overflow h exclude cs
unfolding overflow
overflow-pending h exclude waiting [] = refl
overflow-pending h exclude waiting (c ∷ cs) = rw (overflow-pending h exclude waiting cs)

module _ (h : Hub) (m : Bytes) (exclude : Option ℕ) (c : ℕ) (cs : List ℕ)
    (fresh : All (λ j. j ≢ c) cs) where
  Sends-excluded : is_excluded c exclude ≡ true → Sends h m exclude cs → Sends h m exclude (c ∷ cs)
  unfolding Sends broadcast_loop broadcast_one overflow member
  Sends-excluded out (h', e, b) = (
    h',
    rw (out, broadcast_one) e,
    record {
      chans = λ j. elim (Bool-cases (nat_beq c j)) [
        | inl same ↦
            let q : c ≡ j = ground arith in
            subst (λ x. h'.chans x ≡ chan_after h m exclude (c ∷ cs) x) q
              (rw (b.chans c, out, member_fresh c cs fresh) (ground arith))
        | inr other ↦ rw (b.chans j, other)
      ];
      clients = b.clients;
      pending = rw out b.pending;
    },
  )

  Sends-room :
      IsOpen h c
      → is_excluded c exclude ≡ false
      → has_room h c ≡ true
      → Sends (enqueue h c m) m exclude cs
      → Sends h m exclude (c ∷ cs)
  unfolding Sends broadcast_loop broadcast_one overflow member
  Sends-room o told room (h', e, b) = (
    h',
    rw (told, try_send_open h c m o, room, broadcast_one) e,
    record {
      chans = λ j. elim (Bool-cases (nat_beq c j)) [
        | inl same ↦
            let q : c ≡ j = ground arith in
            subst (λ x. h'.chans x ≡ chan_after h m exclude (c ∷ cs) x) q
              (rw (b.chans c, member_fresh c cs fresh) (ground (arith, told, room)))
        | inr other ↦ let back : nat_beq j c ≡ false = ground arith in rw (b.chans j, other, back)
      ];
      clients = b.clients;
      pending =
          rw (told, room)
            (b.pending ∙ ap (◌++◌ h.pending) (overflow-set_chan h exclude c _ h.pending cs fresh));
    },
  )

  Sends-full :
      IsOpen h c
      → is_excluded c exclude ≡ false
      → has_room h c ≡ false
      → Sends (record h { pending = h.pending ++ c ∷ [] }) m exclude cs
      → Sends h m exclude (c ∷ cs)
  unfolding Sends broadcast_loop broadcast_one overflow member
  Sends-full o told full (h', e, b) = (
    h',
    rw (told, try_send_open h c m o, full, broadcast_one) e,
    record {
      chans = λ j. elim (Bool-cases (nat_beq c j)) [
        | inl same ↦
            let q : c ≡ j = ground arith in
            subst (λ x. h'.chans x ≡ chan_after h m exclude (c ∷ cs) x) q
              (rw (b.chans c, member_fresh c cs fresh) (ground (arith, full)))
        | inr other ↦ rw (b.chans j, other)
      ];
      clients = b.clients;
      pending =
          rw (told, full)
            (b.pending ∙ (rw (append_assoc, overflow-pending h exclude (h.pending ++ c ∷ []) cs)));
    },
  )

IsOpen-pending :
    (h : Hub) (waiting cs : List ℕ)
    → All (IsOpen h) cs
    → All (IsOpen (record h { pending = waiting })) cs
IsOpen-pending h waiting [] o = tt
IsOpen-pending h waiting (c ∷ cs) (o, os) = (o, IsOpen-pending h waiting cs os)

broadcast_loop-Sends :
    (h : Hub) (m : Bytes) (exclude : Option ℕ) (cs : List ℕ)
    → All (IsOpen h) cs
    → IsUnique cs
    → Sends h m exclude cs
unfolding Sends broadcast_loop overflow member
broadcast_loop-Sends h m exclude [] o u =
    (h, refl, record { chans = λ j. refl; clients = refl; pending = sym (append-nil h.pending) })
broadcast_loop-Sends h m exclude (c ∷ cs) (o, os) (fresh, u) =
    elim (Bool-cases (is_excluded c exclude)) [
      | inl out ↦
          Sends-excluded h m exclude c cs fresh out (broadcast_loop-Sends h m exclude cs os u)
      | inr told ↦ elim (Bool-cases (has_room h c)) [
        | inl room ↦ Sends-room h m exclude c cs fresh o told room (
            broadcast_loop-Sends (enqueue h c m) m exclude cs
              (IsOpen-set_chan h exclude c _ h.pending cs fresh os) u)
        | inr full ↦ Sends-full h m exclude c cs fresh o told full (
            broadcast_loop-Sends (record h { pending = h.pending ++ c ∷ [] }) m exclude cs
              (IsOpen-pending h (h.pending ++ c ∷ []) cs os) u)
      ]
    ]

-- While the channels of the connected clients are open and each client stands in the set once,
-- `Broadcast` does not panic: it appends the message to the channel of every connected client that
-- is not excluded and has room, leaves every other channel and the set as they were, and starts a
-- goroutine that unregisters each client that was full, in the order of the set.
pub broadcast-Broadcasts :
    (h : Hub) (m : Bytes) (exclude : Option ℕ)
    → All (IsOpen h) h.clients
    → IsUnique h.clients
    → (h' : Hub) × (broadcast h m exclude ≡ some h') × Broadcasts h m exclude h.clients h'
unfolding broadcast Sends
broadcast-Broadcasts h m exclude o u = broadcast_loop-Sends h m exclude h.clients o u
