-- ===== src/Repository/Observations.antt =====
-- The observations that a write leaves, target by target.
use homemagic.Capability.{rank}
use homemagic.Observation.{CapabilityObservation, descriptor_beq}
use homemagic.Prelude.{
  if◌then◌else◌, text_beq_iff, ◌≡◌, refl, ◌↔◌, true, Option, none, some, List, [], ◌∷◌, arith,
}
use homemagic.Repository.{same_target, put, put_all}
use homemagic.Repository.Upserts.{or_else}

module _ {V : Type 0} where
  -- What `same_target` compares.
  abbrev Same : CapabilityObservation V → CapabilityObservation V → Type 0
  Same a b =
      (a.device_id ≡ b.device_id)
      × (a.endpoint_id ≡ b.endpoint_id)
      × (a.capability.name ≡ b.capability.name)
      × (a.capability.version ≡ b.capability.version)
      × (rank a.capability.risk ≡ rank b.capability.risk)

  Same-iff : (a b : CapabilityObservation V) → (same_target a b ≡ true) ↔ Same a b
  unfolding same_target descriptor_beq
  Same-iff a b = ground (
    arith,
    text_beq_iff a.endpoint_id b.endpoint_id,
    text_beq_iff a.capability.name b.capability.name,
  )

  -- The first and the last observation of a target.
  unfoldable pub find_target :
      CapabilityObservation V → List (CapabilityObservation V) → Option (CapabilityObservation V)
  find_target t [] = none
  find_target t (c ∷ cs) = if same_target c t then some c else find_target t cs

  unfoldable pub last_target :
      CapabilityObservation V → List (CapabilityObservation V) → Option (CapabilityObservation V)
  last_target t [] = none
  last_target t (c ∷ cs) = or_else (last_target t cs) (if same_target c t then some c else none)

  replaced :
      (c o t : CapabilityObservation V) → same_target c o ≡ true → same_target c t ≡ same_target o t
  replaced c o t h = ground (arith, Same-iff c o, Same-iff c t, Same-iff o t)

  shared :
      (c o t : CapabilityObservation V)
      → same_target c t ≡ true
      → same_target o t ≡ true
      → same_target c o ≡ true
  shared c o t h k = ground (arith, Same-iff c o, Same-iff c t, Same-iff o t)

  find_target-put :
      (t o : CapabilityObservation V) (cs : List (CapabilityObservation V))
      → find_target t (put cs o) ≡ (if same_target o t then some o else find_target t cs)
  unfolding find_target put
  find_target-put t o [] = refl
  find_target-put t o (c ∷ cs) =
      ground (arith, replaced c o t, shared c o t, find_target-put t o cs)

  -- After the observations of a write are put in, a look-up of a target finds the last incoming
  -- observation of it, or else the one that was found before.
  pub find_target-put_all :
      (t : CapabilityObservation V) (cs os : List (CapabilityObservation V))
      → find_target t (put_all cs os) ≡ or_else (last_target t os) (find_target t cs)
  unfolding put_all last_target
  find_target-put_all t cs [] = refl
  find_target-put_all t cs (o ∷ os) =
      ground (arith, find_target-put t o cs, find_target-put_all t (put cs o) os)
