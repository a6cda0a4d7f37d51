-- ===== src/Hetzner/Poll/Quiet.antt =====
-- `awaitAction` mutates nothing.
use hetdns.Prelude.{◌≡◌, refl, ap, ◌∙◌}
use hetdns.Hetzner.Types.{Action}
use hetdns.Hetzner.Env.{Runtime, World, Context}
use hetdns.Hetzner.Request.{Client}
use hetdns.Hetzner.Request.Sent.{sent-wait}
use hetdns.Hetzner.Request.Posts.{posts, posts-get_json}
use hetdns.Hetzner.Poll.{await_action, action_path}
use hetdns.Hetzner.Poll.Rule.{await_action_rule}

module _ (rt : Runtime) (c : Client) where
  -- Waiting for an action mutates nothing.
  pub posts-await_action :
      (ctx : Context) (current : Action) (w : World)
      → posts (await_action rt c ctx current w).1.sent ≡ posts w.sent
  posts-await_action ctx current w =
      await_action_rule rt c current (λ v. posts v.sent ≡ posts w.sent)
        (λ x v h. ap posts (sent-wait rt x c.poll_every v) ∙ h)
        (λ x v h. posts-get_json rt c rt.unmarshal_action x (action_path rt c current) v ∙ h) ctx w
        refl
