-- ===== src/Cap/Rights.antt =====
-- Rights: the flags of a clone, and what `clone_cap` does to the map.
use aurora_os_old.Prelude.{
  ℕ, ◌*◌, ◌/◌, ◌%◌, ◌^◌, ◌<◌, ◌≡◌, refl, ◌&&◌, none, some, ◌==◌, bit_and, arith, min,
}
use aurora_os_old.Prelude.Dict.{get}
use aurora_os_old.Prelude.Bits.{bit_and_low, bit_and_digit, bit_and-le}
use aurora_os_old.Cap.{
  CapId, CapObject, Capability, CapMap, clone, and_from_flags, clone_cap, contains, cap_read,
  cap_write,
}
use aurora_os_old.Cap.Map.{IsValid, next_cap_id, inserted, insert-put, fresh, inserted-IsValid}

bit_and_two : (a : ℕ) → bit_and a 2 ≡ a / 2 % 2 * 2
bit_and_two a = omega (arith, bit_and_digit a 2, bit_and_low 1 (a / 2))

min_test : (i j : ℕ) → i < 2 → j < 2 → (min i j == 1) ≡ ((i == 1) && (j == 1))
min_test i j p q = ground arith

low_digit : (a b : ℕ) → bit_and a b % 2 ≡ min (a % 2) (b % 2)
low_digit a b = omega (arith, bit_and_digit a b)

second_digit : (a b : ℕ) → bit_and a b / 2 % 2 ≡ min (a / 2 % 2) (b / 2 % 2)
second_digit a b = omega (arith, bit_and_digit a b, low_digit (a / 2) (b / 2))

double_test : (i : ℕ) → (i * 2 == 2) ≡ (i == 1)
double_test i = ground arith

-- The intersection of two sets of flags contains READ, or WRITE, exactly when both do.
pub contains-bit_and :
    (a b : ℕ)
    → (contains (bit_and a b) cap_read ≡ (contains a cap_read && contains b cap_read))
      × (contains (bit_and a b) cap_write ≡ (contains a cap_write && contains b cap_write))
unfolding contains
contains-bit_and a b = (
  rw (bit_and_low 1 (bit_and a b), bit_and_low 1 a, bit_and_low 1 b, low_digit a b)
      (min_test (a % 2) (b % 2) (omega arith) (omega arith)),
  rw
      (
        bit_and_two (bit_and a b),
        bit_and_two a,
        bit_and_two b,
        second_digit a b,
        double_test (min (a / 2 % 2) (b / 2 % 2)),
        double_test (a / 2 % 2),
        double_test (b / 2 % 2),
      )
      (min_test (a / 2 % 2) (b / 2 % 2) (omega arith) (omega arith)),
)

module _ {O S : Type 0} (t : CapObject O S) where
  -- what a clone of `c` with the rights `fl` is before it has an identifier
  abbrev pub narrowed : Capability O → ℕ → Capability O
  narrowed c fl = record { object = c.object; flags = bit_and c.flags fl; id = 0 }

  -- On a valid map below 2 ^ 59 identifiers, `clone_cap` of an entry adds exactly one entry, under
  -- an identifier that no entry had, for the same object with the flags that are both the entry's
  -- and asked for, and counts one reference; the map stays valid.
  pub clone_cap-inserted :
      (m : CapMap O) (id : CapId) (fl : ℕ) (s : S) (c : Capability O)
      → IsValid t m
      → m.next_id < 2 ^ 59
      → get id m.entries ≡ some c
      → (clone_cap t m id fl s
          ≡ some (
            some (next_cap_id t m (bit_and c.flags fl)),
            inserted t m (narrowed c fl),
            t.inc_ref c.object s,
          ))
        × (get (next_cap_id t m (bit_and c.flags fl)) m.entries ≡ none)
        × IsValid t (inserted t m (narrowed c fl))
  unfolding clone_cap clone and_from_flags
  clone_cap-inserted m id fl s c v room e =
      let small : bit_and c.flags fl < 4 =
        omega (arith, bit_and-le c.flags fl, (v.entries id c e).small) in
      (
        rw (e, clone_cap, (insert-put t m (narrowed c fl) (t.inc_ref c.object s) v small room))
            refl,
        fresh t m (bit_and c.flags fl) v room small,
        inserted-IsValid t m (narrowed c fl) v small room,
      )
