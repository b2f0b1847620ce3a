-- ===== src/Nostr/DmDelivery/Spawning.antt =====
-- The start of a delivery of crates/omachat-nostr/src/dm_delivery.rs.
use oma_chat.Base.{
  anyb, ◌∙◌, ◌∷◌, ◌≤◌, ◌<◌, ◌≡◌, refl, [], List, ok, arith, length, map, Bytes, bytes_eq_iff,
  Result, >>=-elim, reject_if-elim, ok-injective, subst, map_err, map_err-eq-ok, ◌≢◌,
}
use oma_chat.Nostr.RoutedPublish.{RoutedDmPublishPlan}
use oma_chat.Nostr.Pool
use oma_chat.Nostr.Pool.{RelayConnection, RelayError, RelayPool, default_pool_config}
use oma_chat.Nostr.Pool.Spawning.{spawn-IsPool}
use oma_chat.Nostr.DmDelivery.{AuthenticatedDmDelivery, spawn, pool_error}
use oma_chat.Nostr.DmDelivery.Authentication.{IsTracked}

length-map {ℓ κ} :
    {A : Type ℓ} {B : Type κ} (f : A → B) (xs : List A) → length (map f xs) ≡ length xs
length-map f [] = refl
length-map f (x ∷ xs) = omega (arith, length-map f xs)

-- A delivery of the plan that has not begun to wait, for a key that did not sign the event.
pub record IsStart (key : Bytes) (plan : RoutedDmPublishPlan) (d : AuthenticatedDmDelivery)
    : Type 0 where
  pub tracked : IsTracked key [] d.authentication
  pub other_key : key ≢ plan.event.pubkey
  pub same_plan : d.plan ≡ plan
  pub connections : length d.pool.connections ≡ length plan.relay_urls
  pub asked : 0 < plan.required_acknowledgements
  pub reachable : plan.required_acknowledgements ≤ length plan.relay_urls

-- A delivery starts with one connection for each relay of the plan, which is the plan's to begin
-- with, with no relay authenticated, and for a key that is not the one that signed the gift wrap.
pub spawn-IsStart {ℓ} :
    {C : Type ℓ} (spawn_connection : C → Result RelayError RelayConnection) (configure : Bytes → C)
    (plan : RoutedDmPublishPlan) (key : Bytes) (d : AuthenticatedDmDelivery)
    → spawn spawn_connection configure plan key ≡ ok d
    → IsStart key plan d
unfolding spawn anyb
spawn-IsStart spawn_connection configure plan key d h = reject_if-elim _ _ _ h λ own h₁.
    reject_if-elim _ _ _ h₁ λ fit h₂.
      >>=-elim
        (map_err pool_error (
          Pool.spawn spawn_connection (map configure plan.relay_urls) (record default_pool_config {
            acknowledgement_threshold = plan.required_acknowledgements;
          })))
        _ h₂
        λ pool made built.
          let p =
            spawn-IsPool spawn_connection (map configure plan.relay_urls) _ pool
              (map_err-eq-ok _ _ made) in
          subst (IsStart key plan) (ok-injective built) (record {
            tracked = record { expected = refl; distinct = tt; live = λ i there. cc };
            other_key = λ e. ground (arith, (bytes_eq_iff key plan.event.pubkey).1 e);
            same_plan = refl;
            connections = p.connections ∙ length-map configure plan.relay_urls;
            asked = p.asked;
            reachable = omega (arith, p.reachable, length-map configure plan.relay_urls);
          })
