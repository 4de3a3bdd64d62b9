-- ===== src/Notify/Delivery.antt =====
-- Which channels an alert reaches.
use Prim.Native.Nat.{ℕ, ◌+◌, ◌≤◌}
use Prim.Native.String.{String}
use mathlib.Core.Path.{◌≡◌}
use mathlib.Core.Logic.{inl, inr}
use mathlib.Core.Bool.{Bool, true, ◌&&◌}
use mathlib.Core.Option.{Option, some}
use mathlib.Core.List.{List, [], ◌∷◌}
use native.Mathlib.Omega.{arith}
use roostos.Prelude.{length, keep, leb, Bool-cases, if◌then◌else◌}
use roostos.Notify.{
  NotificationChannelConfig, NotificationsConfig, NotificationPayload, Request, level,
  should_notify, send_to_channel, dispatch_all, dispatch, webhook_request, ntfy_request,
  discord_request, slack_request,
}

-- The channels that are enabled and whose least severity the alert reaches.
abbrev pub eligible : {V : Type 0} → NotificationPayload V → List NotificationChannelConfig → ℕ
eligible payload channels = length (
    keep
      (λ (c : NotificationChannelConfig).
        c.enabled && leb (level c.min_severity) (level payload.severity))
      channels)

-- The channels that the alert should go to, and whose address is up.
abbrev pub reachable :
    {V : Type 0} → (String → Bool) → NotificationPayload V → List NotificationChannelConfig → ℕ
reachable up payload channels = length (
    keep
      (λ (c : NotificationChannelConfig).
        c.enabled && (leb (level c.min_severity) (level payload.severity) && up c.url))
      channels)

module _ {V : Type 0} (post : Request V → Option ℕ) where
  dispatch_all-bound :
      (channels : List NotificationChannelConfig) (payload : NotificationPayload V) (n : ℕ)
      → dispatch_all post channels payload n ≤ n + eligible payload channels
  unfolding dispatch_all should_notify keep
  dispatch_all-bound [] payload n = omega arith
  dispatch_all-bound (c ∷ channels) payload n =
      ground
        (arith, dispatch_all-bound channels payload n, dispatch_all-bound channels payload (n + 1))

  -- No more posts count than there are channels which the alert should go to.
  pub dispatch-bound :
      (config : NotificationsConfig) (payload : NotificationPayload V)
      → dispatch post config payload ≤ eligible payload config.channels
  unfolding dispatch
  dispatch-bound config payload = elim (Bool-cases config.enabled) [
    | inl e ↦ rw e (omega (arith, dispatch_all-bound config.channels payload 0))
    | inr e ↦ rw e (omega arith)
  ]

  -- Where the answer to a post depends on its address alone, and is 200 or an error of the server.
  module _ (up : String → Bool)
      (answers : (r : Request V) → post r ≡ some (if up r.url then 200 else 500)) where
    module _ (c : NotificationChannelConfig) (payload : NotificationPayload V) where
      answer : Option ℕ
      answer = some (if up c.url then 200 else 500)

      posts :
          (post (ntfy_request post c payload) ≡ answer)
          × (post (discord_request post c payload) ≡ answer)
          × (post (slack_request post c payload) ≡ answer)
          × (post (webhook_request post c payload) ≡ answer)
      unfolding answer ntfy_request discord_request slack_request webhook_request
      posts = (
        answers (ntfy_request post c payload),
        answers (discord_request post c payload),
        answers (slack_request post c payload),
        answers (webhook_request post c payload),
      )

      send_to_channel-up : send_to_channel post c payload ≡ up c.url
      unfolding send_to_channel answer
      send_to_channel-up =
          let (a, b, d, e) = posts in
          elim (Bool-cases (up c.url)) [
            | inl q ↦ ground (arith, a, b, d, e, q)
            | inr q ↦ ground (arith, a, b, d, e, q)
          ]

    dispatch_all-up :
        (channels : List NotificationChannelConfig) (payload : NotificationPayload V) (n : ℕ)
        → dispatch_all post channels payload n ≡ n + reachable up payload channels
    unfolding dispatch_all should_notify keep
    dispatch_all-up [] payload n = omega arith
    dispatch_all-up (c ∷ channels) payload n = ground (
      arith,
      dispatch_all-up channels payload n,
      dispatch_all-up channels payload (n + 1),
      send_to_channel-up c payload,
    )

    -- Where each address answers every post alike, with 200 or with 500, and notifications are
    -- enabled, a dispatch counts exactly the channels that are enabled, whose least severity the
    -- alert reaches, and whose own address is one that answers with 200: the post to a channel goes
    -- to its address.
    pub dispatch-up :
        (config : NotificationsConfig) (payload : NotificationPayload V)
        → config.enabled ≡ true
        → dispatch post config payload ≡ reachable up payload config.channels
    unfolding dispatch
    dispatch-up config payload e = rw e (omega (arith, dispatch_all-up config.channels payload 0))
