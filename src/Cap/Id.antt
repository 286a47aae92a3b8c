-- ===== src/Cap/Id.antt =====
-- What a capability identifier records, and when reading it panics.
use aurora_os_old.Prelude.{
  ℕ, ◌+◌, ◌*◌, ◌/◌, ◌%◌, ◌^◌, ◌<◌, ◌≡◌, ◌↔◌, ◌∙◌, none, some, wshl, arith, word_mod,
}
use aurora_os_old.Prelude.Bits.{bit_or_disjoint, bit_and_low}
use aurora_os_old.Misc.{get_bits}
use aurora_os_old.Misc.Fields.{get_bits_lem}
use aurora_os_old.Cap.{
  CapObjectType, from, as_usize, flags, cap_object_type, pack, from_bits_truncate,
}

pub from-as_usize : (t : CapObjectType) → from (as_usize t) ≡ some t
unfolding from as_usize
from-as_usize t = ground arith

as_usize-lt : (t : CapObjectType) → as_usize t < 7
unfolding as_usize
as_usize-lt t = ground arith

pub pack_lem :
    (id : ℕ) (t : CapObjectType) (fl : ℕ)
    → id < 2 ^ 59
    → fl < 4
    → pack id t fl ≡ id * 32 + as_usize t * 4 + fl
unfolding pack
pack_lem id t fl bound small =
    let n = as_usize-lt t in
    let high : wshl id 5 ≡ id * 2 ^ 5 = omega arith in
    let mid : wshl (as_usize t) 2 ≡ as_usize t * 4 = omega (arith, n) in
    let e : id * 2 ^ 5 + as_usize t * 4 ≡ (id * 8 + as_usize t) * 2 ^ 2 = omega arith in
    rw
      (
        high,
        mid,
        bit_or_disjoint 5 id (as_usize t * 4) (omega (arith, n)),
        e,
        bit_or_disjoint 2 (id * 8 + as_usize t) fl small,
      )
      (omega arith)

flags_lem : (id : ℕ) → flags id ≡ id % 4
unfolding flags from_bits_truncate
flags_lem id = bit_and_low 2 id

-- An identifier that `set_base_id` makes of a number below 2 ^ 59, a type and flags of two bits is
-- a word from which type, flags and number are read back.
pub pack_fields :
    (id : ℕ) (t : CapObjectType) (fl : ℕ)
    → id < 2 ^ 59
    → fl < 4
    → (cap_object_type (pack id t fl) ≡ some t)
      × (flags (pack id t fl) ≡ fl)
      × (pack id t fl < word_mod)
      × (pack id t fl / 32 ≡ id)
unfolding cap_object_type
pack_fields id t fl bound small =
    let n = as_usize-lt t in
    let p = pack_lem id t fl bound small in
    let w : get_bits (pack id t fl) 2 5 ≡ as_usize t =
      get_bits_lem (pack id t fl) 2 5 (omega arith) (omega arith) ∙ omega (arith, p, n) in
    (
      rw w (from-as_usize t),
      flags_lem (pack id t fl) ∙ omega (arith, p),
      omega (arith, p, n),
      omega (arith, p, n),
    )

-- Reading the type of an identifier panics exactly when its bits 2 to 4 are all set.
pub cap_object_type_panics : (id : ℕ) → (cap_object_type id ≡ none) ↔ (id / 4 % 8 ≡ 7)
unfolding cap_object_type from
cap_object_type_panics id =
    let w : get_bits id 2 5 ≡ id / 4 % 8 =
      get_bits_lem id 2 5 (omega arith) (omega arith) ∙ omega arith in
    rw w (ground arith, ground arith)
