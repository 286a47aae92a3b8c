-- ===== src/Cap.antt =====
-- kernel/src/cap/mod.rs: capability identifiers, capabilities and the capability map of a process.
-- `CapFlags` is its bits, with the operations that `bitflags!` documents. `none` is a panic.
-- The trait `CapObject` is a record over the objects `O` and the state `S` that counts references.
pub mod Id
pub mod Map
pub mod Rights
mod Tests
use aurora_os_old.Prelude.{
  ℕ, zero, suc, ◌+◌, ◌*◌, ◌^◌, Bool, true, false, Option, none, some, List, [], ◌∷◌, ◌==◌, ltb,
  if◌then◌else◌, bit_and, bit_or, wshl,
}
use aurora_os_old.Prelude.Dict.{get, put, delete}
use aurora_os_old.Misc.{get_bits}

-- `CapFlags::READ`, `CapFlags::WRITE`, and all of them
abbrev pub cap_read : ℕ
cap_read = 1

abbrev pub cap_write : ℕ
cap_write = 2

unfoldable pub from_bits_truncate : ℕ → ℕ
from_bits_truncate bits = bit_and bits (bit_or cap_read cap_write)

-- `bits.contains(f)`
unfoldable pub contains : (bits f : ℕ) → Bool
contains bits f = bit_and bits f == f

pub data CapObjectType : Type 0 where
  channel futex smem key mmio interrupt port : CapObjectType

unfoldable pub from : ℕ → Option CapObjectType
from n =
    if n == 0
    then some channel
    else if n == 1
    then some futex
    else if n == 2
    then some smem
    else if n == 3
    then some key
    else if n == 4
    then some mmio
    else if n == 5
    then some interrupt
    else if n == 6
    then some port
    else none

unfoldable pub as_usize : CapObjectType → ℕ
as_usize channel = 0
as_usize futex = 1
as_usize smem = 2
as_usize key = 3
as_usize mmio = 4
as_usize interrupt = 5
as_usize port = 6

abbrev pub CapId : Type 0
CapId = ℕ

-- `CapId::flags`
unfoldable pub flags : CapId → ℕ
flags id = from_bits_truncate id

-- `CapId::cap_object_type`, whose `unwrap` panics
unfoldable pub cap_object_type : CapId → Option CapObjectType
cap_object_type id = from (get_bits id 2 5)

pub record CapObject (O S : Type 0) : Type 0 where
  pub object_type : CapObjectType
  pub inc_ref : O → S → S
  pub dec_ref : O → S → S

pub record Capability (O : Type 0) : Type 0 where
  pub object : O
  pub flags : ℕ
  pub id : CapId

pub record CapMap (O : Type 0) : Type 0 where
  pub entries : List (CapId × Capability O)
  pub next_id : ℕ

-- the bits that `set_base_id` packs
unfoldable pub pack : ℕ → CapObjectType → ℕ → CapId
pack id type fl = bit_or (bit_or (wshl id 5) (wshl (as_usize type) 2)) fl

module _ {O S : Type 0} (t : CapObject O S) where
  unfoldable pub new_cap : O → ℕ → S → Capability O × S
  new_cap object fl s = (record { object = object; flags = fl; id = 0 }, t.inc_ref object s)

  unfoldable pub clone : Capability O → S → Capability O × S
  clone cap s = (record { object = cap.object; flags = cap.flags; id = 0 }, t.inc_ref cap.object s)

  unfoldable pub and_from_flags : Capability O → ℕ → S → Capability O × S
  and_from_flags cap fl s =
      let (out, s') = clone cap s in (record out { flags = bit_and out.flags fl }, s')

  unfoldable pub drop : Capability O → S → S
  drop cap s = t.dec_ref cap.object s

  unfoldable pub set_base_id : Capability O → ℕ → Option (Capability O)
  set_base_id cap id =
      if ltb id (2 ^ 59) then some (record cap { id = pack id t.object_type cap.flags }) else none

  -- A capability that the insertion replaces is dropped.
  unfoldable pub drop_old : Option (Capability O) → S → S
  drop_old none s = s
  drop_old (some cap) s = drop cap s

  unfoldable pub insert : CapMap O → Capability O → S → Option (CapId × CapMap O × S)
  insert m cap s = elim (set_base_id cap m.next_id) [
    | none ↦ none
    | some c ↦ some (
      c.id,
      record { entries = put c.id c m.entries; next_id = m.next_id + 1 },
      drop_old (get c.id m.entries) s,
    )
  ]

  unfoldable pub remove : CapMap O → CapId → Option (Capability O) × CapMap O
  remove m id = (get id m.entries, record m { entries = delete id m.entries })

  unfoldable pub call {ℓ} : {U : Type ℓ} → CapMap O → CapId → (O → ℕ → U) → Option U
  call m id f = elim (get id m.entries) [ none ↦ none | some cap ↦ some (f cap.object cap.flags) ]

  unfoldable pub clone_from : CapMap O → CapId → S → Option (Capability O × S)
  clone_from m id s = elim (get id m.entries) [ none ↦ none | some cap ↦ some (clone cap s) ]

  -- The removed capability is a temporary, dropped at the end of the statement.
  unfoldable pub destroy : CapMap O → CapId → S → Bool × CapMap O × S
  destroy m id s = elim (remove m id).0 [
    | none ↦ (false, (remove m id).1, s)
    | some cap ↦ (true, (remove m id).1, drop cap s)
  ]

  -- The outer `Option` is a panic, the inner one the result.
  unfoldable pub clone_cap : CapMap O → CapId → ℕ → S → Option (Option CapId × CapMap O × S)
  clone_cap m id fl s = elim (get id m.entries) [
    | none ↦ some (none, m, s)
    | some cap ↦ elim (insert m (and_from_flags cap fl s).0 (and_from_flags cap fl s).1) [
      | none ↦ none
      | some (id', m', s') ↦ some (some id', m', s')
    ]
  ]
