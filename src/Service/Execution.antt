-- ===== src/Service/Execution.antt =====
-- Which commands an actor's request hands to the adapter.
use homemagic.Prelude.{
  nat_beq_iff, find-some, ok, Gives, chain-State, await-State, Gives-result, await-Gives, text_eq,
  nat_eq, ◌==◌, ℕ, ◌≡◌, refl, ◌∙◌, ◌⊎◌, inl, inr, Option, none, some, List, ◌∷◌, find, ap,
}
use homemagic.Actor.{Actor}
use homemagic.Capability.{CapabilityDescriptor}
use homemagic.Capability.Snapshot.{CapabilitySnapshot}
use homemagic.Command.{CommandEnvelope, CommandAggregate, receive}
use homemagic.Device.{DeviceRecord}
use homemagic.Service.{
  audit as audit_entry, CommandAuditRecord, CommandServiceError, repository, audit_publication,
  device_not_found,
}
use homemagic.Service.Boundary.{
  CommandCreateOutcome, created, existing_equivalent, conflict, CommandRequest, CommandService,
  from_result, from_option, load_device, publish,
}
use homemagic.Service.Target.{requested_descriptor}
use homemagic.Service.Entry.{canonical_hash, envelope_of, continue_created, create, execute}
use homemagic.Service.Handed.{Still}
use homemagic.Service.Dispatching.{ServiceLaws, Outcome}
use homemagic.Service.Clearance.{Approved, continue_received-Outcome}

-- The device is the first one with the identity in a list of devices that the store gave.
pub record Loaded {W B F J : Type 0} (service : CommandService W B F J) (id : ℕ)
    (device : DeviceRecord (CapabilitySnapshot F) J) : Type 0 where
  pub devices : List (DeviceRecord (CapabilitySnapshot F) J)
  pub given_by : (w : W) × ((service.stores.load w).0 ≡ ok devices)
  pub found : find (λ d. d.snapshot.id == id) devices ≡ some device
  pub identity : device.snapshot.id ≡ id

module _ {W B F J : Type 0} (service : CommandService W B F J) where
  found-Gives :
      (P : DeviceRecord (CapabilitySnapshot F) J → Type 0)
      (found : Option (DeviceRecord (CapabilitySnapshot F) J)) (w : W)
      → ((d : DeviceRecord (CapabilitySnapshot F) J) → found ≡ some d → P d)
      → Gives P (from_option {B = B} device_not_found found w)
  found-Gives P none w h = tt
  found-Gives P (some d) w h = h d refl

  pub load_device-Loaded :
      (id : ℕ) (d : DeviceRecord (CapabilitySnapshot F) J) (w w1 : W)
      → load_device service id w ≡ (ok d, w1)
      → Loaded service id d
  unfolding load_device
  load_device-Loaded id d w w1 =
      let P = Loaded service id in
      Gives-result P (load_device service id w) (
        await-Gives P repository (service.stores.load w) _ (λ ds w2 t. found-Gives P _ w2 (λ x e.
          record {
            devices = ds;
            given_by = (w, ap (λ z. z.0) t);
            found = e;
            identity = (nat_beq_iff _ _).0 (find-some (λ y. y.snapshot.id == id) ds x e);
          })))

module _ {W B F J : Type 0} {service : CommandService W B F J} {handed : W → List CommandEnvelope}
    (laws : ServiceLaws service handed) where
  from_option-Still :
      {A : Type 0} {s : List CommandEnvelope} (missing : CommandServiceError B) (found : Option A)
      (w : W)
      → handed w ≡ s
      → handed (from_option missing found w).1 ≡ s
  from_option-Still missing none w h = h
  from_option-Still missing (some a) w h = h

  pub load_device-Still :
      {s : List CommandEnvelope} (id : ℕ) (w : W)
      → handed w ≡ s
      → handed (load_device service id w).1 ≡ s
  unfolding load_device
  load_device-Still {s} id w h =
      await-State (Still laws.services s) (Still laws.services s) repository (service.stores.load w)
        _ (laws.stores.load w ∙ h) (λ _ i. i)
        (λ ds w1 _ i. from_option-Still device_not_found _ w1 i)

  continue_created-Outcome :
      {s : List CommandEnvelope} (c : CommandAggregate) (receipt : CommandAuditRecord)
      (device : DeviceRecord (CapabilitySnapshot F) J) (actor_id now : ℕ) (o : CommandCreateOutcome)
      (w : W)
      → handed w ≡ s
      → Outcome handed c.envelope
          (Approved service actor_id now device c)
          s
          (continue_created service c receipt device actor_id now o w).1
  unfolding continue_created publish
  continue_created-Outcome c receipt device actor_id now (existing_equivalent x) w h = inl h
  continue_created-Outcome c receipt device actor_id now (conflict x) w h = inl h
  continue_created-Outcome {s} c receipt device actor_id now (created x) w h =
      await-State (Still laws.services s)
        (Outcome handed c.envelope (Approved service actor_id now device c) s) audit_publication
        (service.services.publish receipt w) _ (laws.services.publish receipt w ∙ h) (λ _ i. inl i)
        (λ _ w1 _ i. continue_received-Outcome laws c device actor_id now w1 i)

  create-Outcome :
      {s : List CommandEnvelope} (c : CommandAggregate) (request : CommandRequest)
      (device : DeviceRecord (CapabilitySnapshot F) J) (actor_id now : ℕ) (w : W)
      → handed w ≡ s
      → Outcome handed c.envelope
          (Approved service actor_id now device c)
          s
          (create service c request device actor_id now w).1
  unfolding create
  create-Outcome {s} c request device actor_id now w h =
      let J = Outcome handed c.envelope (Approved service actor_id now device c) s in
      chain-State (Still laws.services s) J
        (from_result (canonical_hash service actor_id request) w) _ h (λ _ i. inl i)
        (λ hash w1 _ i.
          let (id, w2) = service.services.new_audit_id w1 in
          let receipt = audit_entry id c none in
          await-State (Still laws.services s) J repository
            (service.stores.create_command c hash receipt w2) _
            (laws.stores.create_command c hash receipt w2 ∙ laws.services.new_audit_id w1 ∙ i)
            (λ _ j. inl j)
            (λ o w3 _ j. continue_created-Outcome c receipt device actor_id now o w3 j))

-- The command that a request makes for a device that was loaded by the identity of the request.
abbrev pub Requested :
    {W B F J : Type 0} (service : CommandService W B F J) (actor : Actor) (request : CommandRequest)
    (now : ℕ) (device : DeviceRecord (CapabilitySnapshot F) J) (c : CommandAggregate)
    → Type 0
Requested service actor request now device c =
    Loaded service request.device_id device
    × (id : ℕ) × (fallback : CapabilityDescriptor) × (c
        ≡ receive (envelope_of service id actor.id request device fallback now))

-- Nothing was handed to the adapter beyond s, or only the envelope of a command with Q.
abbrev pub AtMostOne :
    {W : Type 0} (handed : W → List CommandEnvelope) (Q : CommandAggregate → Type 0)
    (s : List CommandEnvelope) (w : W)
    → Type 0
AtMostOne handed Q s w =
    (handed w ≡ s) ⊎ ((c : CommandAggregate) × Q c × (handed w ≡ c.envelope ∷ s))

pub one_of :
    {X P : Type 0} {Q H : CommandAggregate → Type 0} (c : CommandAggregate)
    → (P → Q c)
    → X ⊎ (P × H c)
    → X ⊎ ((d : CommandAggregate) × Q d × H d)
one_of c f (inl x) = inl x
one_of c f (inr (p, h)) = inr (c, f p, h)

module _ {W B F J : Type 0} {service : CommandService W B F J} {handed : W → List CommandEnvelope}
    (laws : ServiceLaws service handed) where
  -- If nothing but the dispatch of the adapter hands it an envelope, if the dispatch control commits
  -- only the command that it is given, and if an actor is stored under its identity, then, whatever the
  -- services answer, the execution of a request hands at most one envelope to the adapter: that of the
  -- command which the request makes for a device that the store loaded and that has the requested
  -- identity. Then the target of the command is valid on that device, the command is no dry run, its deadline is still to come, and the
  -- policy permits it on the grants that the store keeps for the actor, with capacities that the limits
  -- gave.
  pub execute-AtMostOne :
      (actor : Actor) (request : CommandRequest) (now : ℕ) (w : W)
      → AtMostOne handed
          (λ c.
            (device : DeviceRecord (CapabilitySnapshot F) J) × Requested service actor request now
              device c
            × Approved service actor.id now device c)
          (handed w)
          (execute service actor request now w).1
  unfolding execute
  execute-AtMostOne actor request now w =
      let Q : CommandAggregate → Type 0 = λ c.
        (device : DeviceRecord (CapabilitySnapshot F) J) × Requested service actor request now
          device c
        × Approved service actor.id now device c in
      let I = Still laws.services (handed w) in
      let J = AtMostOne handed Q (handed w) in
      chain-State I J (load_device service request.device_id w) _
        (load_device-Still laws request.device_id w refl) (λ _ i. inl i)
        (λ device w1 t i.
          chain-State I J (from_result (requested_descriptor request.payload) w1) _ i (λ _ j. inl j)
            (λ fallback w2 _ j.
              let (id, w3) = service.stores.new_command_id w2 in
              let c = receive (envelope_of service id actor.id request device fallback now) in
              one_of c
                (λ approved. (
                  device,
                  (load_device-Loaded service request.device_id device w w1 t, id, fallback, refl),
                  approved,
                ))
                (create-Outcome laws c request device actor.id now w3
                  (laws.stores.new_command_id w2 ∙ j))))
