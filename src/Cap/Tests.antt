-- ===== src/Cap/Tests.antt =====
-- A map of channel capabilities, whose objects are numbers and whose state counts references.
use aurora_os_old.Prelude.{
  ℕ, ◌+◌, ◌-◌, ◌/◌, ◌%◌, ◌<◌, ◌≡◌, ◌↔◌, none, some, [], bit_and, word_mod, arith, none_ne,
}
use aurora_os_old.Prelude.Dict
use aurora_os_old.Cap.{
  channel, CapId, CapObject, Capability, CapMap, pack, clone_cap, flags, cap_object_type,
}
use aurora_os_old.Cap.Id.{pack_fields, cap_object_type_panics}
use aurora_os_old.Cap.Map.{IsValid, next_cap_id, inserted, inserted-IsValid}
use aurora_os_old.Cap.Rights.{narrowed, clone_cap-inserted}

abbrev channels : CapObject ℕ ℕ
channels = record { object_type = channel; inc_ref = λ o s. s + 1; dec_ref = λ o s. s - 1 }

abbrev no_caps : CapMap ℕ
no_caps = record { entries = []; next_id = 0 }

no_caps-IsValid : IsValid channels no_caps
unfolding Dict.get
no_caps-IsValid = record { entries = λ id c h. absurd (none_ne c h); bound = omega arith }

-- a capability of the object 7 with READ and WRITE
abbrev seven : Capability ℕ
seven = record { object = 7; flags = 3; id = 0 }

abbrev one_cap : CapMap ℕ
one_cap = inserted channels no_caps seven

abbrev first_id : CapId
first_id = next_cap_id channels no_caps 3

one_cap-IsValid : IsValid channels one_cap
one_cap-IsValid =
    inserted-IsValid channels no_caps seven no_caps-IsValid (omega arith) (omega arith)

listed : Dict.get first_id one_cap.entries ≡ some (record seven { id = first_id })
listed = Dict.get-put_self first_id (record seven { id = first_id }) []

clone_cap-inserted_example :
    (clone_cap channels one_cap first_id 1 1
      ≡ some (
        some (next_cap_id channels one_cap (bit_and 3 1)),
        inserted channels one_cap (narrowed channels (record seven { id = first_id }) 1),
        1 + 1,
      ))
    × (Dict.get (next_cap_id channels one_cap (bit_and 3 1)) one_cap.entries ≡ none)
    × IsValid channels
        (inserted channels one_cap (narrowed channels (record seven { id = first_id }) 1))
clone_cap-inserted_example =
    clone_cap-inserted channels one_cap first_id 1 1 (record seven { id = first_id })
      one_cap-IsValid (omega arith) listed

pack_fields_example :
    (cap_object_type (pack 5 channel 3) ≡ some channel)
    × (flags (pack 5 channel 3) ≡ 3)
    × (pack 5 channel 3 < word_mod)
    × (pack 5 channel 3 / 32 ≡ 5)
pack_fields_example = pack_fields 5 channel 3 (omega arith) (omega arith)

cap_object_type_panics_example : (cap_object_type 31 ≡ none) ↔ (31 / 4 % 8 ≡ 7)
cap_object_type_panics_example = cap_object_type_panics 31
