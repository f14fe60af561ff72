-- ===== src/Actor.antt =====
-- crates/homemagic-domain/src/command.rs: actors, the actions that can be granted to them, and
-- grants. Identities are opaque tokens that only are compared, so numbers stand for them. A set is
-- a list that only is asked what it contains.
use homemagic.Prelude.{
  nat_beq, Text, ℕ, Bool, true, false, List, nat_beq_iff, zero, suc, ◌≡◌, refl, sym, ap, ◌∙◌, ◌↔◌,
}
use homemagic.Capability.{RiskClass}

pub data ActorKind : Type 0 where
  legacy user agent automation service : ActorKind

unfoldable pub actor_kind_beq : ActorKind → ActorKind → Bool
actor_kind_beq legacy legacy = true
actor_kind_beq user user = true
actor_kind_beq agent agent = true
actor_kind_beq automation automation = true
actor_kind_beq service service = true
actor_kind_beq _ _ = false

pub record Actor : Type 0 where
  pub id : ℕ
  pub installation_id : ℕ
  pub kind : ActorKind
  pub name : Text
  pub enabled : Bool
  pub created_at : ℕ

pub data CommandAction : Type 0 where
  validate execute cancel read_audit approve_unlock : CommandAction
  matter_read matter_create_fabric matter_commission_node matter_cancel_operation : CommandAction
  matter_remove_node matter_export_fabric matter_restore_fabric : CommandAction
  matter_repair_subscription : CommandAction

-- The place of an action in the declaration, by which the derived order compares.
abbrev pub action_code : CommandAction → ℕ
action_code validate = 0
action_code execute = 1
action_code cancel = 2
action_code read_audit = 3
action_code approve_unlock = 4
action_code matter_read = 5
action_code matter_create_fabric = 6
action_code matter_commission_node = 7
action_code matter_cancel_operation = 8
action_code matter_remove_node = 9
action_code matter_export_fabric = 10
action_code matter_restore_fabric = 11
action_code matter_repair_subscription = 12

unfoldable pub action_beq : CommandAction → CommandAction → Bool
action_beq a b = nat_beq (action_code a) (action_code b)

pub data GrantScope : Type 0 where
  installation : ℕ → GrantScope
  space : ℕ → GrantScope
  device : ℕ → GrantScope
  capability : ℕ → Text → Text → GrantScope

pub record ActorGrant : Type 0 where
  pub id : ℕ
  pub actor_id : ℕ
  pub actions : List CommandAction
  pub scope : GrantScope
  pub maximum_risk : RiskClass
  pub enabled : Bool

of_code : ℕ → CommandAction
of_code zero = validate
of_code (suc zero) = execute
of_code (suc (suc zero)) = cancel
of_code (suc (suc (suc zero))) = read_audit
of_code (suc (suc (suc (suc zero)))) = approve_unlock
of_code (suc (suc (suc (suc (suc n))))) = of_matter n
  where
    of_matter : ℕ → CommandAction
    of_matter zero = matter_read
    of_matter (suc zero) = matter_create_fabric
    of_matter (suc (suc zero)) = matter_commission_node
    of_matter (suc (suc (suc zero))) = matter_cancel_operation
    of_matter (suc (suc (suc (suc zero)))) = matter_remove_node
    of_matter (suc (suc (suc (suc (suc zero))))) = matter_export_fabric
    of_matter (suc (suc (suc (suc (suc (suc zero)))))) = matter_restore_fabric
    of_matter (suc (suc (suc (suc (suc (suc (suc n))))))) = matter_repair_subscription

of_code-action_code : (a : CommandAction) → of_code (action_code a) ≡ a
unfolding of_code
of_code-action_code validate = refl
of_code-action_code _ = refl

pub action_beq_iff : (a b : CommandAction) → (action_beq a b ≡ true) ↔ (a ≡ b)
unfolding action_beq
action_beq_iff a b = (
  (λ e.
      sym (of_code-action_code a)
      ∙ ap of_code ((nat_beq_iff (action_code a) (action_code b)).0 e)
      ∙ of_code-action_code b),
  (λ e. (nat_beq_iff (action_code a) (action_code b)).1 (ap action_code e)),
)
