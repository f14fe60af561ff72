-- ===== src/Repository.antt =====
-- crates/homemagic-application/src/memory.rs: the repository that is kept in memory, with the data of
-- its port in crates/homemagic-application/src/ports.rs and crates/homemagic-domain/src/configuration.rs.
-- Identities are 128-bit numbers, which order them, and cursors 64-bit. A device is a type D with
-- its identity, and an event a type E: the repository does not look into them. One call under the
-- lock is one step.
pub mod Upserts
mod Events
mod Paging
mod Observations
mod Examples
use homemagic.Observation.{CapabilityObservation, descriptor_beq}
use homemagic.Repair.{RepairRecord}
use homemagic.Prelude.{
  ltb, nat_beq, text_beq, if◌then◌else◌, filter, take, Text, ℕ, ◌+◌, min, Bool, ◌&&◌, Option, none,
  some, List, [], ◌∷◌, ◌++◌,
}

pub record Installation : Type 0 where
  pub id : ℕ
  pub name : Text
  pub created_at : ℕ

pub record IntegrationInstance : Type 0 where
  pub id : ℕ
  pub installation_id : ℕ
  pub adapter : Text
  pub instance_key : Text
  pub name : Text
  pub credential_ref : Option Text

pub record Space : Type 0 where
  pub id : ℕ
  pub installation_id : ℕ
  pub parent_id : Option ℕ
  pub name : Text
  pub aliases : List Text

pub record FoundationSnapshot (D V : Type 0) : Type 0 where
  pub installations : List Installation
  pub integrations : List IntegrationInstance
  pub spaces : List Space
  pub devices : List D
  pub observations : List (CapabilityObservation V)
  pub repairs : List RepairRecord
  pub event_cursor : Option ℕ

pub record FoundationWrite (D V E : Type 0) : Type 0 where
  pub installations : List Installation
  pub integrations : List IntegrationInstance
  pub spaces : List Space
  pub devices : List D
  pub observations : List (CapabilityObservation V)
  pub events : List E
  pub repairs : List RepairRecord

pub record CursorEvent (E : Type 0) : Type 0 where
  pub cursor : ℕ
  pub event : E

pub record EventPage (E : Type 0) : Type 0 where
  pub earliest_cursor : Option ℕ
  pub latest_cursor : Option ℕ
  pub events : List (CursorEvent E)

pub record MemoryState (D V E : Type 0) : Type 0 where
  pub snapshot : FoundationSnapshot D V
  pub events : List (CursorEvent E)

-- MemoryState::default
abbrev pub empty : {D V E : Type 0} → MemoryState D V E
empty = record {
  snapshot = record {
    installations = [];
    integrations = [];
    spaces = [];
    devices = [];
    observations = [];
    repairs = [];
    event_cursor = none;
  };
  events = [];
}

module _ {A : Type 0} (key : A → ℕ) where
  -- BTreeMap::insert, on the values in increasing order of their keys.
  unfoldable pub insert_by : A → List A → List A
  insert_by v [] = v ∷ []
  insert_by v (w ∷ m) =
      let later = w ∷ insert_by v m in
      if nat_beq (key w) (key v) then v ∷ m else if ltb (key v) (key w) then v ∷ w ∷ m else later

  -- BTreeMap::extend
  unfoldable pub extend : List A → List A → List A
  extend m [] = m
  extend m (x ∷ xs) = extend (insert_by x m) xs

  -- The body that upsert_installations and the other four share.
  unfoldable pub upsert : List A → List A → List A
  upsert current incoming = extend (extend [] current) incoming

module _ {V : Type 0} where
  -- The test in the loop over the observations.
  unfoldable pub same_target : CapabilityObservation V → CapabilityObservation V → Bool
  unfolding descriptor_beq
  same_target current o =
      nat_beq current.device_id o.device_id
      && text_beq current.endpoint_id o.endpoint_id
      && descriptor_beq current.capability o.capability

  -- One round of that loop: the first observation of the target is replaced, or one is added.
  unfoldable pub put :
      List (CapabilityObservation V) → CapabilityObservation V → List (CapabilityObservation V)
  put [] o = o ∷ []
  put (c ∷ cs) o = let rest = put cs o in if same_target c o then o ∷ cs else c ∷ rest

  unfoldable pub put_all :
      List (CapabilityObservation V)
      → List (CapabilityObservation V)
      → List (CapabilityObservation V)
  put_all cs [] = cs
  put_all cs (o ∷ os) = put_all (put cs o) os

abbrev pub u64_max : ℕ
u64_max = 0xFFFF_FFFF_FFFF_FFFF

-- u64::saturating_add
abbrev pub saturating_add : ℕ → ℕ → ℕ
saturating_add a b = min (a + b) u64_max

abbrev pub unwrap_or {ℓ} : {A : Type ℓ} → Option A → A → A
unwrap_or none d = d
unwrap_or (some a) d = a

module _ {E : Type 0} where
  -- `events.last().map(|event| event.cursor)`
  unfoldable pub last_cursor : List (CursorEvent E) → Option ℕ
  last_cursor [] = none
  last_cursor (e ∷ es) = elim (last_cursor es) [ none ↦ some e.cursor | some c ↦ some c ]

  abbrev pub first_cursor : List (CursorEvent E) → Option ℕ
  first_cursor [] = none
  first_cursor (e ∷ es) = some e.cursor

  -- The loop over the events of a write, from an offset on.
  unfoldable pub record_events : ℕ → ℕ → List E → List (CursorEvent E)
  record_events current offset [] = []
  record_events current offset (e ∷ es) =
      record { cursor = saturating_add (saturating_add current (min offset u64_max)) 1; event = e }
      ∷ record_events current (offset + 1) es

  -- The part of MemoryFoundationRepository::apply that appends the events: the new cursor of the
  -- snapshot and the new events.
  unfoldable pub append_events :
      Option ℕ → List (CursorEvent E) → List E → Option ℕ × List (CursorEvent E)
  append_events cursor events [] = (cursor, events)
  append_events cursor events (e ∷ es) =
      let appended = events ++ record_events (unwrap_or cursor 0) 0 (e ∷ es) in
      (last_cursor appended, appended)

module _ {D V E : Type 0} (device_id : D → ℕ) where
  -- MemoryFoundationRepository::apply, but for the events.
  unfoldable pub apply_snapshot :
      FoundationSnapshot D V → FoundationWrite D V E → FoundationSnapshot D V
  apply_snapshot s w = record {
    installations = upsert (λ x. x.id) s.installations w.installations;
    integrations = upsert (λ x. x.id) s.integrations w.integrations;
    spaces = upsert (λ x. x.id) s.spaces w.spaces;
    devices = upsert device_id s.devices w.devices;
    observations = put_all s.observations w.observations;
    repairs = upsert (λ x. x.id) s.repairs w.repairs;
    event_cursor = s.event_cursor;
  }

  -- MemoryFoundationRepository::apply
  unfoldable pub apply : MemoryState D V E → FoundationWrite D V E → MemoryState D V E
  unfolding apply_snapshot append_events
  apply s w =
      let (cursor, events) = append_events s.snapshot.event_cursor s.events w.events in
      record {
        snapshot = record (apply_snapshot s.snapshot w) { event_cursor = cursor };
        events = events;
      }

module _ {D V E : Type 0} where
  -- MemoryFoundationRepository::events_after
  unfoldable pub events_after : MemoryState D V E → ℕ → ℕ → EventPage E
  events_after s cursor limit = record {
    earliest_cursor = first_cursor s.events;
    latest_cursor = last_cursor s.events;
    events = take limit (filter (λ e. ltb cursor e.cursor) s.events);
  }
