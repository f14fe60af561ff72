-- ===== src/Repository/Examples.antt =====
-- The repository at concrete inputs: devices are their identities, and events numbers.
use homemagic.Capability.{comfort}
use homemagic.Observation.{CapabilityObservation, full_status}
use homemagic.Prelude.{Text, text, ℕ, ◌≡◌, refl, some, List, [], ◌∷◌, arith, none}
use homemagic.Repository.{
  Installation, FoundationWrite, empty, insert_by, extend, upsert, put_all, last_cursor,
  record_events, append_events, apply_snapshot, apply,
}
use homemagic.Repository.Events.{numbered, writes, writes-numbered}
use homemagic.Repository.Upserts.{or_else, find, find_last, IsAscending, upsert-IsAscending}
use homemagic.Repository.Observations.{find_target, last_target, find_target-put_all}
use homemagic.Repository.Paging.{read_pages, read_pages-numbered}

abbrev no_write : FoundationWrite ℕ ℕ ℕ
no_write = record {
  installations = [];
  integrations = [];
  spaces = [];
  devices = [];
  observations = [];
  events = [];
  repairs = [];
}

abbrev identity : ℕ → ℕ
identity d = d

abbrev three_writes : List (FoundationWrite ℕ ℕ ℕ)
three_writes =
    record no_write { events = 70 ∷ 71 ∷ [] }
    ∷ record no_write { devices = 4 ∷ [] }
    ∷ record no_write { events = 72 ∷ [] }
    ∷ []

third_cursor : (writes identity empty three_writes).snapshot.event_cursor ≡ some 3
unfolding writes apply apply_snapshot append_events last_cursor record_events upsert extend
    insert_by put_all
third_cursor = refl

writes-numbered_example :
    let s = writes identity empty three_writes in
    (s.events ≡ numbered 1 (70 ∷ 71 ∷ 72 ∷ [])) × (s.snapshot.event_cursor ≡ last_cursor s.events)
writes-numbered_example = writes-numbered identity three_writes (omega arith)

read_pages-numbered_example :
    read_pages (writes identity empty three_writes) 1 5 1 ≡ numbered 2 (71 ∷ 72 ∷ [])
read_pages-numbered_example =
    read_pages-numbered identity three_writes 1 5 1 (omega arith) (omega arith) (omega arith)

abbrev named : ℕ → Text → Installation
named id name = record { id = id; name = name; created_at = 0 }

abbrev installation_id : Installation → ℕ
installation_id i = i.id

abbrev renamed : List Installation
renamed =
    upsert installation_id (named 7 (text "home") ∷ [])
      (named 9 (text "hut") ∷ named 7 (text "flat") ∷ [])

upsert-IsAscending_example :
    IsAscending installation_id renamed
    × ((k : ℕ)
        → find installation_id k renamed
          ≡ or_else
              (find_last installation_id k (named 9 (text "hut") ∷ named 7 (text "flat") ∷ []))
              (find_last installation_id k (named 7 (text "home") ∷ [])))
upsert-IsAscending_example =
    upsert-IsAscending installation_id (named 7 (text "home") ∷ [])
      (named 9 (text "hut") ∷ named 7 (text "flat") ∷ [])

renamed_lem : find installation_id 7 renamed ≡ some (named 7 (text "flat"))
unfolding find upsert extend insert_by
renamed_lem = refl

abbrev plug : ℕ → CapabilityObservation ℕ
plug received_at = record {
  device_id = 20;
  endpoint_id = text "main";
  capability = record { name = text "on_off"; version = 1; risk = comfort };
  values = [];
  received_at = received_at;
  source = record { integration_id = 5; kind = full_status; sequence = none };
}

find_target-put_all_example :
    find_target (plug 0) (put_all (plug 1 ∷ []) (plug 2 ∷ plug 3 ∷ []))
    ≡ or_else (last_target (plug 0) (plug 2 ∷ plug 3 ∷ [])) (find_target (plug 0) (plug 1 ∷ []))
find_target-put_all_example = find_target-put_all (plug 0) (plug 1 ∷ []) (plug 2 ∷ plug 3 ∷ [])
