-- ===== src/Service/Boundary.antt =====
-- crates/homemagic-application/src/command_service.rs: what the command service holds. The
-- repositories, the limits and the dispatch control are interfaces over the state W of the outside
-- world, from crates/homemagic-application/src/ports.rs, policy.rs and matter_commands.rs; of the
-- dispatch control, the service may have none. The encoding and the digest of the canonical request
-- are third-party code.
use homemagic.Prelude.{
  find, Result, ok, err, await, Text, text_eq, nat_eq, ◌==◌, ℕ, Bool, Option, none, some, List,
}
use homemagic.Actor.{Actor, ActorGrant}
use homemagic.Capability.Snapshot.{CapabilitySnapshot}
use homemagic.Command.{CommandPayload, ExpectedObservation, AutomationCausation, CommandAggregate}
use homemagic.Device.{DeviceRecord}
use homemagic.Freshness.{FreshnessPolicy}
use homemagic.Limits.{CommandLimitCapacities}
use homemagic.Policy.{PolicyDecision}
use homemagic.Service.{
  ◌>>=◌, CommandAuditRecord, CommandServiceError, device_not_found, actor_not_found, repository,
  audit_publication, Services, Run,
}

pub record ActorCredential : Type 0 where
  pub actor_id : ℕ
  pub token_hash : Text
  pub rotated_at : ℕ

pub record ActorSecurity : Type 0 where
  pub actor : Actor
  pub credential : Option ActorCredential
  pub grants : List ActorGrant

pub data CommandCreateOutcome : Type 0 where
  created existing_equivalent : CommandAggregate → CommandCreateOutcome
  conflict : ℕ → CommandCreateOutcome

pub record CommandRequest : Type 0 where
  pub device_id : ℕ
  pub endpoint_id : Text
  pub payload : CommandPayload
  pub idempotency_key : Text
  pub deadline : ℕ
  pub expected : Option ExpectedObservation
  pub dry_run : Bool
  pub correlation_id : ℕ
  pub causation_event_id : Option ℕ
  pub automation_causation : Option AutomationCausation

-- The tuple that `canonical_hash` encodes.
pub record CanonicalRequest : Type 0 where
  pub actor_id : ℕ
  pub device_id : ℕ
  pub endpoint_id : Text
  pub payload : CommandPayload
  pub deadline : ℕ
  pub expected : Option ExpectedObservation
  pub dry_run : Bool

-- FoundationRepository::load, of which the devices are used, CommandRepository, CommandLimits with
-- the drop of a permit, CommandId::new, `serde_json::to_vec` and `Sha256::digest`.
pub record Stores (W B F J : Type 0) : Type 0 where
  pub load : W → Result (List (DeviceRecord (CapabilitySnapshot F) J)) B × W
  pub actor_security : ℕ → W → Result (Option ActorSecurity) B × W
  pub create_command :
      CommandAggregate → Text → CommandAuditRecord → W → Result CommandCreateOutcome B × W
  pub command : ℕ → W → Result (Option CommandAggregate) B × W
  pub actor_commands : ℕ → ℕ → W → Result (List CommandAggregate) B × W
  pub command_audit : ℕ → Option ℕ → ℕ → W → Result (List CommandAuditRecord) B × W
  pub recoverable_commands : ℕ → W → Result (List CommandAggregate) B × W
  pub try_acquire : ℕ → ℕ → ℕ → W → CommandLimitCapacities × W
  pub release : ℕ → W → W
  pub new_command_id : W → ℕ × W
  pub to_vec : CanonicalRequest → Result (List ℕ) B
  pub digest : List ℕ → List ℕ

pub data DesiredStateRegistration : Type 0 where
  unmanaged : DesiredStateRegistration
  managed : ℕ → ℕ → Option CommandAuditRecord → DesiredStateRegistration

pub data MatterDispatchAdmission : Type 0 where
  unmanaged : MatterDispatchAdmission
  committed : CommandAggregate → CommandAuditRecord → MatterDispatchAdmission
  superseded : CommandAggregate → MatterDispatchAdmission
  awaiting_unlock_authorization : MatterDispatchAdmission

pub record CommandDispatchControl (W B : Type 0) : Type 0 where
  pub register_desired : CommandAggregate → ℕ → W → Result DesiredStateRegistration B × W
  pub commit_dispatch : CommandAggregate → ℕ → W → Result MatterDispatchAdmission B × W
  pub authorize_unlock :
      Actor → CommandAggregate → PolicyDecision → ℕ → W → Result MatterDispatchAdmission B × W

pub record CommandService (W B F J : Type 0) : Type 0 where
  pub services : Services W B
  pub stores : Stores W B F J
  pub dispatch_control : Option (CommandDispatchControl W B)
  pub freshness : FreshnessPolicy

module _ {W B A : Type 0} where
  -- `.await.map_err(CommandServiceError::Repository)?.ok_or(missing)`
  abbrev pub present_or :
      CommandServiceError B → Result (Option A) B × W → Result A (CommandServiceError B) × W
  present_or missing (ok (some a), w) = (ok a, w)
  present_or missing (ok none, w) = (err missing, w)
  present_or missing (err e, w) = (err (repository e), w)

  abbrev pub lookup_or : CommandServiceError B → (W → Result (Option A) B × W) → Run W B A
  lookup_or missing m = λ w. present_or missing (m w)

  -- `?` on a value.
  abbrev pub from_result : Result A (CommandServiceError B) → Run W B A
  from_result r = λ w. (r, w)

  abbrev pub from_option : CommandServiceError B → Option A → Run W B A
  from_option missing none = λ w. (err missing, w)
  from_option missing (some a) = λ w. (ok a, w)

module _ {W B F J : Type 0} (service : CommandService W B F J) where
  -- The device of an identity in the loaded snapshot.
  unfoldable pub load_device : ℕ → Run W B (DeviceRecord (CapabilitySnapshot F) J)
  load_device device_id = do
    devices ← await repository service.stores.load
    from_option device_not_found (find (λ d. d.snapshot.id == device_id) devices)

  -- `actor_security(…)`, which must be there.
  unfoldable pub load_security : ℕ → Run W B ActorSecurity
  load_security actor_id = lookup_or actor_not_found (service.stores.actor_security actor_id)

  -- CommandService::publish
  unfoldable pub publish : CommandAuditRecord → Run W B (Unit {0})
  publish entry = await audit_publication (service.services.publish entry)
