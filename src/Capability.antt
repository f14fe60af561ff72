-- ===== src/Capability.antt =====
-- crates/homemagic-domain/src/capability.rs: risk classes and versioned capability contracts.
-- Versions are 16-bit, and a text is a list of Unicode scalar values.
pub mod Schema
pub mod Snapshot
mod Examples
use homemagic.Prelude.{
  ltb, leb, if◌then◌else◌, all, Result, ok, err, ◌==◌, nat_eq, Text, text_eq, contains, ℕ, zero,
  suc, ◌+◌, ◌/◌, ◌%◌, Bool, ◌&&◌, ◌||◌, [], ◌∷◌, ◌++◌,
}

pub data RiskClass : Type 0 where
  observe comfort mechanical security : RiskClass

-- RiskClass::rank
unfoldable pub rank : RiskClass → ℕ
rank observe = 0
rank comfort = 1
rank mechanical = 2
rank security = 3

-- RiskClass::permits
unfoldable pub permits : RiskClass → RiskClass → Bool
unfolding rank
permits granted requested = leb (rank requested) (rank granted)

pub record CapabilityDescriptor : Type 0 where
  pub name : Text
  pub version : ℕ
  pub risk : RiskClass

pub data CapabilityDescriptorError : Type 0 where
  empty_name invalid_version : CapabilityDescriptorError

-- char::is_whitespace: the code points with the property White_Space.
abbrev pub is_whitespace : ℕ → Bool
is_whitespace c =
    (leb 9 c && leb c 13)
    || contains c (32 ∷ 0x85 ∷ 0xA0 ∷ 0x1680 ∷ [])
    || (leb 0x2000 c && leb c 0x200A)
    || contains c (0x2028 ∷ 0x2029 ∷ 0x202F ∷ 0x205F ∷ 0x3000 ∷ [])

-- `value.trim().is_empty()`
unfoldable pub is_blank : Text → Bool
is_blank = all is_whitespace

-- CapabilityDescriptor::new
unfoldable pub new : Text → ℕ → RiskClass → Result CapabilityDescriptor CapabilityDescriptorError
new name version risk =
    if is_blank name
    then err empty_name
    else if version == 0
    then err invalid_version
    else ok (record { name = name; version = version; risk = risk })

-- `{}` of an unsigned number, in decimal. A number has fewer digits than the fuel `n + 1`.
unfoldable pub decimal_digits : ℕ → ℕ → Text → Text
decimal_digits zero n acc = acc
decimal_digits (suc fuel) n acc =
    let more = decimal_digits fuel (n / 10) ((n % 10 + 48) ∷ acc) in
    if ltb n 10 then (n + 48) ∷ acc else more

unfoldable pub decimal : ℕ → Text
unfolding decimal_digits
decimal n = decimal_digits (n + 1) n []

-- CapabilityDescriptor::schema, `{name}.v{version}`
unfoldable pub schema : CapabilityDescriptor → Text
unfolding decimal
schema d = d.name ++ (b'.' ∷ b'v' ∷ decimal d.version)
