-- ===== src/Realtime/Client/Handled.antt =====
-- internal/realtime/client.go: what a handler leaves if it returns, also once the client's own
-- channel is closed.
use fileflow.Common.{
  Bytes, List, Option-cases, delete, inl, inr, none_is_not_some, refl, some, subst, ℕ, ◌≡◌,
  bytes_key, nat_key,
}
use fileflow.Realtime.Events.{Codec, event_send_fail, new_event, send_fail}
use fileflow.Realtime.Hub.{Hub, try_send}
use fileflow.Realtime.Client.{
  Client, MessageState, Outcome, forward, handle_message, report_failure,
}
use fileflow.Realtime.Client.Shape.{handle_message-cases}
use fileflow.Realtime.Hub.Queues.{
  Grows, Grows-refl, send_to_peer-Grows, try_send-Grows, try_send-Keeps,
}
use fileflow.Realtime.Hub.Soundness.{IsSound, Keeps, send_to_peer-Keeps}

abbrev pub Handled : Client → Hub → Outcome → Type 0
Handled c h r =
    (c' : Client) (h' : Hub)
    → r ≡ some (c', h')
    → ((active : List (Bytes × MessageState)) × (c' ≡ record c { active_messages = active }))
      × Keeps h h'
      × Grows h h'

unchanged-Handled :
    (c : Client) (h : Hub) (active : List (Bytes × MessageState))
    → Handled c h (some (record c { active_messages = active }, h))
unchanged-Handled c h active c' h' e =
    let same : h ≡ h' = cc in
    ((active, cc), subst (Keeps h) same (refl, λ j. refl), subst (Grows h) same (Grows-refl h))

forward-Handled :
    (c : Client) (h : Hub)
    → IsSound h
    → (active : List (Bytes × MessageState)) (d : Bytes)
    → Handled c h (forward (record c { active_messages = active }) h d)
forward-Handled c h sound active d c' h' e =
    let (b, g, f, k) = send_to_peer-Keeps h c.id d sound in
    let grown = send_to_peer-Grows h g c.id d b sound f in
    let q = (rw f at e) in
    let same : g ≡ h' = cc q in ((active, cc q), subst (Keeps h) same k, subst (Grows h) same grown)

report_failure-Handled :
    (codec : Codec) (c : Client) (h : Hub) (active : List (Bytes × MessageState))
    (id reason : Bytes) (now : ℕ)
    → Handled c h (report_failure codec (record c { active_messages = active }) h id reason now)
unfolding report_failure
report_failure-Handled codec c h active id reason now c' h' e =
    elim (Option-cases (codec.marshal (new_event event_send_fail (send_fail id reason) now))) [
      | inl failed ↦ unchanged-Handled c h active c' h' (rw (report_failure, failed) at e)
      | inr (m, done) ↦ elim (Option-cases (try_send h c.id m)) [
        | inl panics ↦ absurd (none_is_not_some (rw (report_failure, done, panics) at e))
        | inr ((taken, g), f) ↦
            let q = (rw (report_failure, done, f) at e) in
            let same : g ≡ h' = cc q in
            (
              (delete id active, cc q),
              subst (Keeps h) same (try_send-Keeps h g c.id m taken f),
              subst (Grows h) same (try_send-Grows h g c.id m taken f),
            )
      ]
    ]

pub handle_message-Handled :
    (codec : Codec) (c : Client) (h : Hub) (d : Bytes) (now : ℕ)
    → IsSound h
    → Handled c h (handle_message codec c h d now)
handle_message-Handled codec c h d now sound =
    handle_message-cases codec c h (Handled c h) (unchanged-Handled c h c.active_messages)
      (forward-Handled c h sound) (report_failure-Handled codec c h) d now
