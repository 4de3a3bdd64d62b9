-- ===== src/Notify.antt =====
-- roostos-engine/src/roostos_engine/notifications.py: which channels an alert goes to, and the
-- request that is posted to each.
pub mod Delivery
use Prim.Native.Nat.{ℕ, ◌+◌}
use Prim.Native.String.{String}
use text.Mathlib.Text.{◌==◌}
use mathlib.Core.Bool.{Bool, true, false, not, ◌&&◌, ◌||◌}
use mathlib.Core.Option.{Option, none, some}
use mathlib.Core.List.{List, [], ◌∷◌, ◌++◌}
use native.Mathlib.Omega.{arith}
use roostos.Prelude.{leb, eqb, or_else, if◌then◌else◌}
use roostos.Prelude.Dict
use roostos.Prelude.Dict.{Dict}
use roostos.Prelude.Text.{concat, lower, upper}
use roostos.Models.{truthy}

abbrev severity_levels : Dict ℕ
severity_levels = ("info", 1) ∷ ("warning", 2) ∷ ("critical", 3) ∷ []

abbrev ntfy_priorities : Dict String
ntfy_priorities = ("info", "2") ∷ ("warning", "4") ∷ ("critical", "5") ∷ []

abbrev discord_colors : Dict ℕ
discord_colors = ("info", 3447003) ∷ ("warning", 16776960) ∷ ("critical", 15158332) ∷ []

pub record NotificationChannelConfig : Type 0 where
  pub id : String
  pub name : String
  pub kind : String
  pub url : String
  pub enabled : Bool
  pub min_severity : String
  pub auth_token : Option String

pub record NotificationsConfig : Type 0 where
  pub enabled : Bool
  pub channels : List NotificationChannelConfig

-- `V` is the type of the measured values.
pub record NotificationPayload (V : Type 0) : Type 0 where
  pub alert_id : String
  pub rule_id : String
  pub title : String
  pub message : String
  pub severity : String
  pub state : String
  pub node_id : String
  pub value : V
  pub timestamp : String

-- What is posted: the body before it is encoded, the address and the headers.
pub data Body (V : Type 0) : Type 0 where
  webhook : NotificationPayload V → Body V
  plain : String → Body V
  embed : String → String → ℕ → String → String → Body V
  chat : String → Body V

pub record Request (V : Type 0) : Type 0 where
  pub url : String
  pub body : Body V
  pub headers : Dict String

unfoldable pub level : String → ℕ
unfolding Dict.get lower
level severity = or_else (Dict.get (lower severity) severity_levels) 2

unfoldable pub should_notify : NotificationChannelConfig → String → Bool
should_notify channel severity =
    if not channel.enabled then false else leb (level channel.min_severity) (level severity)

abbrev with_token : Option String → Dict String → Dict String
with_token none headers = headers
with_token (some token) headers = Dict.put "Authorization" (concat ("Bearer " ∷ token ∷ [])) headers

-- the status counts as a success; `none` is an exception
abbrev succeeded : List ℕ → Option ℕ → Bool
succeeded good none = false
succeeded good (some status) = is_in good
  where
    is_in : List ℕ → Bool
    is_in [] = false
    is_in (n ∷ ns) = eqb n status || is_in ns

module _ {V : Type 0} (post : Request V → Option ℕ) where
  unfoldable pub webhook_request : NotificationChannelConfig → NotificationPayload V → Request V
  webhook_request channel payload = record {
    url = channel.url;
    body = webhook payload;
    headers = with_token (truthy channel.auth_token) (("Content-Type", "application/json") ∷ []);
  }

  unfoldable pub ntfy_request : NotificationChannelConfig → NotificationPayload V → Request V
  ntfy_request channel payload = record {
    url = channel.url;
    body = plain (
        concat
          ("[" ∷ upper payload.state ∷ "] " ∷ payload.message ∷ "\nNode: " ∷ payload.node_id ∷ []));
    headers = with_token (truthy channel.auth_token) (
        ("Title", payload.title)
        ∷ ("Priority", or_else (Dict.get (lower payload.severity) ntfy_priorities) "3")
        ∷ ("Tags", concat ("roostos," ∷ payload.severity ∷ []))
        ∷ []);
  }

  unfoldable pub discord_request : NotificationChannelConfig → NotificationPayload V → Request V
  discord_request channel payload = record {
    url = channel.url;
    body =
        embed (concat ("[" ∷ upper payload.state ∷ "] " ∷ payload.title ∷ [])) payload.message
          (or_else (Dict.get (lower payload.severity) discord_colors) 16776960)
          (upper payload.severity) payload.node_id;
    headers = ("Content-Type", "application/json") ∷ [];
  }

  unfoldable pub slack_request : NotificationChannelConfig → NotificationPayload V → Request V
  slack_request channel payload = record {
    url = channel.url;
    body = chat (
        concat (
          "*["
          ∷ upper payload.state
          ∷ "] "
          ∷ payload.title
          ∷ "*\n"
          ∷ payload.message
          ∷ "\n*Node:* `"
          ∷ payload.node_id
          ∷ "` | *Severity:* `"
          ∷ payload.severity
          ∷ "`"
          ∷ []));
    headers = ("Content-Type", "application/json") ∷ [];
  }

  unfoldable pub send_to_channel : NotificationChannelConfig → NotificationPayload V → Bool
  send_to_channel channel payload =
      let ch_type = lower channel.kind in
      if ch_type == "ntfy"
      then succeeded (200 ∷ 201 ∷ 202 ∷ 204 ∷ []) (post (ntfy_request channel payload))
      else if ch_type == "discord"
      then succeeded (200 ∷ 204 ∷ []) (post (discord_request channel payload))
      else if ch_type == "slack"
      then succeeded (200 ∷ 204 ∷ []) (post (slack_request channel payload))
      else succeeded (200 ∷ 201 ∷ 202 ∷ 204 ∷ []) (post (webhook_request channel payload))

  -- the loop of `dispatch`, with the count so far
  unfoldable pub dispatch_all : List NotificationChannelConfig → NotificationPayload V → ℕ → ℕ
  dispatch_all [] payload dispatched_count = dispatched_count
  dispatch_all (channel ∷ channels) payload dispatched_count = dispatch_all channels payload (
      if not (should_notify channel payload.severity)
      then dispatched_count
      else if send_to_channel channel payload
      then dispatched_count + 1
      else dispatched_count)

  unfoldable pub dispatch : NotificationsConfig → NotificationPayload V → ℕ
  dispatch config payload = if not config.enabled then 0 else dispatch_all config.channels payload 0
