-- ===== src/Realtime/Client/Relay.antt =====
-- internal/realtime: the messages of one client on their way into the channel of the other.
use mathlib.Core.List.{append-nil, append_assoc}
use fileflow.Common.{
  All, Bool, Bytes, List, [], ap, arith, false, inl, inr, length, length-append, map, refl, some,
  subst, sym, true, ℕ, ◌&&◌, ◌++◌, ◌+◌, ◌>>=◌, ◌∙◌, ◌∷◌, ◌≡◌, ◌≢◌, ◌≤◌, ◌⊎◌, bytes_key, nat_key,
}
use fileflow.Realtime.Events.{Codec, CodecLaws}
use fileflow.Realtime.Hub.{Hub, has_peer, member, send_capacity}
use fileflow.Realtime.Client.Spec.{Verdict, View, ignored, judge, refused, relayed, view}
use fileflow.Realtime.Client.Outcomes.{has_peer_iff}
use fileflow.Realtime.Hub.Delivery.{Delivers, IsOpen, enqueue, has_room, member-All}
use fileflow.Realtime.Client.{Client, MessageState, handle_message}
use fileflow.Realtime.Client.Refine.{handle_message-Refines}
use fileflow.Realtime.Client.Budget.{Ensures, IsBounded, handle_message-IsBounded}
use fileflow.Realtime.Client.Crash.{handle_message-Returns}
use fileflow.Realtime.Hub.Soundness.{IsSound, Keeps-IsSound, enqueue-Keeps}
use fileflow.Limit.{RateLimit}
use fileflow.Realtime.Client.Pumps.{read_loop}

abbrev when_relayed : Verdict → Bool → Bool
when_relayed relayed later = later
when_relayed _ later = false

-- What the specification says of all messages one after another, while a peer is connected.
unfoldable pub all_relayed : Codec → ℕ → View → List (Bytes × ℕ) → Bool
all_relayed codec limit v [] = true
all_relayed codec limit v ((d, now) ∷ rest) =
    let (verdict, w) = judge limit true v (codec.unmarshal d) in
    when_relayed verdict (all_relayed codec limit w rest)

when_relayed-eq-true :
    (verdict : Verdict) (later : Bool)
    → when_relayed verdict later ≡ true
    → (verdict ≡ relayed) × (later ≡ true)
when_relayed-eq-true relayed later e = (refl, e)
when_relayed-eq-true ignored later e = cc
when_relayed-eq-true (refused reason) later e = cc

-- The sender and one other client are connected.
pub record IsPair (h : Hub) (sender peer : ℕ) : Type 0 where
  pub other : peer ≢ sender
  pub connected : member peer h.clients ≡ true
  pub alone : All (λ c. (c ≡ sender) ⊎ (c ≡ peer)) h.clients

pub Delivers-IsPair :
    (h : Hub) (sender peer : ℕ) (d : Bytes) (taken : Bool) (h' : Hub)
    → IsPair h sender peer
    → has_room h peer ≡ true
    → Delivers h sender d h.clients (some (taken, h'))
    → h' ≡ enqueue h peer d
Delivers-IsPair h sender peer d taken h' pair room (inl (c, (m, n, _), e)) =
    elim (member-All (λ c. (c ≡ sender) ⊎ (c ≡ peer)) c h.clients pair.alone m) [
      | inl self ↦ absurd (n self)
      | inr same ↦ let q : enqueue h c d ≡ h' = cc in rw same at (sym q)
    ]
Delivers-IsPair h sender peer d taken h' pair room (inr (full, e)) =
    elim (member-All (λ c. (c ≡ sender) ⊎ (has_room h c ≡ false)) peer h.clients full
      pair.connected) [ inl self ↦ absurd (pair.other self) | inr no_room ↦ cc ]

IsPair-peer : (h : Hub) (sender peer : ℕ) → IsPair h sender peer → has_peer h sender ≡ true
IsPair-peer h sender peer pair = (has_peer_iff h sender).1 (peer, pair.connected, pair.other)

-- The peer's channel has the messages at its end, and no other channel has changed.
pub record Arrived (h : Hub) (peer : ℕ) (messages : List Bytes) (h' : Hub) : Type 0 where
  pub queue : (h'.chans peer).queue ≡ (h.chans peer).queue ++ messages
  pub others : (j : ℕ) → j ≢ peer → h'.chans j ≡ h.chans j

module _ (codec : Codec) (laws : CodecLaws codec) where
  relay_one :
      (c : Client) (h : Hub) (peer : ℕ) (d : Bytes) (now : ℕ)
      → IsSound h
      → IsOpen h c.id
      → IsBounded c
      → IsPair h c.id peer
      → has_room h peer ≡ true
      → (judge c.max_message_size true (view c) (codec.unmarshal d)).0 ≡ relayed
      → (active : List (Bytes × MessageState)) × let c' = record c { active_messages = active } in
          (handle_message codec c h d now ≡ some (c', enqueue h peer d))
          × (view c' ≡ (judge c.max_message_size true (view c) (codec.unmarshal d)).1)
          × IsBounded c'
  relay_one c h peer d now sound own bounded pair room verdict =
      let (c₁, h₁, e, seen, enacts) =
        (rw (IsPair-peer h c.id peer pair) at
          (handle_message-Refines codec laws c h d now sound own bounded.distinct)) in
      let (active, h₂, e₂, _) = handle_message-Returns c h sound own codec d now in
      let kept : Ensures IsBounded (handle_message codec c h d now) =
        handle_message-IsBounded codec laws c h d now bounded in
      let (taken, delivers) = (rw verdict at enacts) in
      let q : h₁ ≡ enqueue h peer d = Delivers-IsPair h c.id peer d taken h₁ pair room delivers in
      let same : c₁ ≡ record c { active_messages = active } = cc in
      let e₃ : handle_message codec c h d now ≡ some (record c { active_messages = active }, h₁) =
        cc in
      let bounded₁ : IsBounded c₁ = (rw e at kept) in
      (active, (rw (sym q) e₃, ap view (sym same) ∙ seen, subst IsBounded same bounded₁))

module _ (rl : RateLimit) where
  -- The client's rate limit lets all the messages pass.
  unfoldable pub all_admitted : rl.Bucket → List (Bytes × ℕ) → Bool
  all_admitted b [] = true
  all_admitted b ((d, now) ∷ rest) = let (ok, b') = rl.allow b now in ok && all_admitted b' rest

abbrev pub payloads : List (Bytes × ℕ) → List Bytes
payloads messages = map (λ m. m.0) messages

Arrived-nil : (h : Hub) (peer : ℕ) → Arrived h peer [] h
Arrived-nil h peer = record { queue = sym (append-nil _); others = λ j n. refl }

Arrived-enqueue :
    (h : Hub) (peer : ℕ) (d : Bytes) (rest : List Bytes) (h' : Hub)
    → Arrived (enqueue h peer d) peer rest h'
    → Arrived h peer (d ∷ rest) h'
Arrived-enqueue h peer d rest h' a = record {
  queue = a.queue ∙ ground (arith, append_assoc (h.chans peer).queue (d ∷ []) rest);
  others = λ j n. a.others j n ∙ ground (arith, n);
}

module _ (codec : Codec) (laws : CodecLaws codec) (rl : RateLimit) where
  abbrev pub Relays : rl.Bucket → Client → Hub → ℕ → List (Bytes × ℕ) → Type 0
  Relays b c h peer messages =
      (c' : Client) × (h' : Hub) × (read_loop codec rl b c h messages ≡ some (c', h'))
      × Arrived h peer (payloads messages) h'

  -- While two clients are connected, and the hub is sound with both channels open, a client sends
  -- messages that its rate limit admits and of which the specification says, one after
  -- another, that each is to be relayed. If the peer's channel has room for them all, and
  -- nothing else changes the hub meanwhile, the read loop takes them in without a panic, and then they
  -- stand at the end of the peer's channel, byte for byte, in their order, and no other channel has
  -- changed.
  pub read_loop-Relays :
      (b : rl.Bucket) (c : Client) (h : Hub) (peer : ℕ) (messages : List (Bytes × ℕ))
      → IsSound h
      → IsOpen h c.id
      → IsBounded c
      → IsPair h c.id peer
      → length (h.chans peer).queue + length messages ≤ send_capacity
      → all_admitted rl b messages ≡ true
      → all_relayed codec c.max_message_size (view c) messages ≡ true
      → Relays b c h peer messages
  unfolding read_loop all_admitted all_relayed
  read_loop-Relays b c h peer [] sound own bounded pair room admitted told =
      (c, h, refl, Arrived-nil h peer)
  read_loop-Relays b c h peer ((d, now) ∷ rest) sound own bounded pair room admitted told =
      let free : has_room h peer ≡ true = ground arith in
      let allowed : (rl.allow b now).0 ≡ true = ground arith in
      let (verdict, later) = when_relayed-eq-true _ _ told in
      let (active, (e, seen, kept)) =
        relay_one codec laws c h peer d now sound own bounded pair free verdict in
      let c₁ : Client = record c { active_messages = active } in
      let k = enqueue-Keeps h peer d in
      let (c₂, h₂, e₂, a) =
        read_loop-Relays (rl.allow b now).1 c₁ (enqueue h peer d) peer rest
          (Keeps-IsSound h _ k sound) (k.1 c.id ∙ own) kept
          (record { other = pair.other; connected = pair.connected; alone = pair.alone })
          (ground (arith, length-append (h.chans peer).queue (d ∷ []))) (ground (arith, admitted))
          (rw seen later) in
      (c₂, h₂, rw (allowed, e, ◌>>=◌) e₂, Arrived-enqueue h peer d _ h₂ a)
