-- ===== src/Matter.antt =====
-- crates/homemagic-domain/src/matter: controller operations (Matter/Operation) and the desired and
-- reported state of a projection (Matter/State); and the recovery of subscriptions of
-- crates/homemagic-application/src/matter_subscription.rs (Matter/Subscription).
pub mod Operation
pub mod State
pub mod Subscription
