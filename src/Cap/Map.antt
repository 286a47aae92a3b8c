-- ===== src/Cap/Map.antt =====
-- The capability map: fresh identifiers, and what each operation does to every entry.
use aurora_os_old.Prelude.{
  ℕ, ◌+◌, ◌/◌, ◌^◌, ◌<◌, ◌≤◌, ◌≡◌, refl, sym, ◌∙◌, ap, true, false, none, some, arith, some_inj,
  none_ne, inl, inr, Option-cases, lt→ltb,
}
use aurora_os_old.Prelude.Dict.{
  get, put, delete, get-put_self, get-put_ne, get-delete_self, get-delete_ne,
}
use mathlib.Core.Path.{subst}
use native.Mathlib.Decide.{ℕ_discrete}
use aurora_os_old.Cap.{
  CapId, CapObject, Capability, CapMap, pack, drop_old, drop, set_base_id, insert, remove, destroy,
}
use aurora_os_old.Cap.Id.{pack_fields}

module _ {O S : Type 0} (t : CapObject O S) where
  -- Each entry is stored under its own identifier, which packs its flags, the type of the map and
  -- a base number that was given out before.
  pub record IsEntry (m : CapMap O) (id : CapId) (cap : Capability O) : Type 0 where
    pub base : ℕ
    pub given : base < m.next_id
    pub own : cap.id ≡ id
    pub small : cap.flags < 4
    pub packed : id ≡ pack base t.object_type cap.flags

  pub record IsValid (m : CapMap O) : Type 0 where
    pub entries : (id : CapId) (cap : Capability O) → get id m.entries ≡ some cap → IsEntry m id cap
    pub bound : m.next_id ≤ 2 ^ 59

  -- the identifier that the next insertion gives to flags `fl`
  abbrev pub next_cap_id : CapMap O → ℕ → CapId
  next_cap_id m fl = pack m.next_id t.object_type fl

  -- Identifiers are never given out twice.
  pub fresh :
      (m : CapMap O) (fl : ℕ)
      → IsValid m
      → m.next_id < 2 ^ 59
      → fl < 4
      → get (next_cap_id m fl) m.entries ≡ none
  fresh m fl v room small = elim (Option-cases (get (next_cap_id m fl) m.entries)) [
    | inl none_ ↦ none_
    | inr (cap, e) ↦
        let entry = v.entries (next_cap_id m fl) cap e in
        let new = (pack_fields m.next_id t.object_type fl room small).3 in
        let old =
          (pack_fields entry.base t.object_type cap.flags (omega (arith, entry.given))
            entry.small).3 in
        absurd (omega (arith, ap (λ (k : ℕ). k / 32) entry.packed, entry.given, new, old))
  ]

  -- the map after an insertion
  abbrev pub inserted : CapMap O → Capability O → CapMap O
  inserted m cap = record {
    entries = put (next_cap_id m cap.flags) (record cap { id = next_cap_id m cap.flags }) m.entries;
    next_id = m.next_id + 1;
  }

  set_base_id_room :
      (c : Capability O) (id : ℕ)
      → id < 2 ^ 59
      → set_base_id t c id ≡ some (record c { id = pack id t.object_type c.flags })
  unfolding set_base_id
  set_base_id_room c id room = rw (lt→ltb id (2 ^ 59) room) refl

  -- Below 2 ^ 59 identifiers, `insert` into a valid map of a capability with READ and WRITE flags
  -- only stores it under its new identifier with the counter moved on, and drops nothing.
  pub insert-put :
      (m : CapMap O) (cap : Capability O) (s : S)
      → IsValid m
      → cap.flags < 4
      → m.next_id < 2 ^ 59
      → insert t m cap s ≡ some (next_cap_id m cap.flags, inserted m cap, s)
  unfolding insert drop_old
  insert-put m c s v small room =
      rw (set_base_id_room c m.next_id room, insert)
        (rw (fresh m c.flags v room small, drop_old) refl)

  keep-IsEntry :
      (m m' : CapMap O) (id : CapId) (c₀ : Capability O)
      → m.next_id ≤ m'.next_id
      → IsEntry m id c₀
      → IsEntry m' id c₀
  keep-IsEntry m m' id c₀ h e = record {
    base = e.base;
    given = omega (arith, e.given);
    own = e.own;
    small = e.small;
    packed = e.packed;
  }

  pub inserted-IsValid :
      (m : CapMap O) (c₀ : Capability O)
      → IsValid m
      → c₀.flags < 4
      → m.next_id < 2 ^ 59
      → IsValid (inserted m c₀)
  inserted-IsValid m c₀ v small room = record { entries = each; bound = omega arith }
    where
      new :
          IsEntry
            (inserted m c₀)
            (next_cap_id m c₀.flags)
            (record c₀ { id = next_cap_id m c₀.flags })
      new = record {
        base = m.next_id;
        given = omega arith;
        own = refl;
        small = small;
        packed = refl;
      }

      key : CapId
      key = next_cap_id m c₀.flags

      stored : Capability O
      stored = record c₀ { id = next_cap_id m c₀.flags }

      at_key :
          (c : Capability O)
          → get key (put key stored m.entries) ≡ some c
          → IsEntry (inserted m c₀) key c
      at_key c h =
          subst (λ x. IsEntry (inserted m c₀) key x)
            (some_inj stored c (sym (get-put_self key stored m.entries) ∙ h)) new

      each :
          (id : CapId) (c : Capability O)
          → get id (inserted m c₀).entries ≡ some c
          → IsEntry (inserted m c₀) id c
      each id c h = elim (ℕ_discrete key id) [
        | yes same ↦
            subst (λ i. get i (put key stored m.entries) ≡ some c → IsEntry (inserted m c₀) i c)
              same (at_key c) h
        | no other ↦
            keep-IsEntry m (inserted m c₀) id c (omega arith)
              (v.entries id c (sym (get-put_ne key id stored m.entries other) ∙ h))
      ]

  -- the map without an entry
  abbrev pub without : CapMap O → CapId → CapMap O
  without m id = record m { entries = delete id m.entries }

  without-IsValid : (m : CapMap O) (id : CapId) → IsValid m → IsValid (without m id)
  without-IsValid m id v = record { entries = each; bound = v.bound }
    where
      each :
          (j : CapId) (c : Capability O)
          → get j (delete id m.entries) ≡ some c
          → IsEntry (without m id) j c
      each j c h = elim (ℕ_discrete id j) [
        | yes same ↦ absurd (
            none_ne c (
              sym (get-delete_self id m.entries)
              ∙ subst (λ i. get i (delete id m.entries) ≡ some c) (sym same) h))
        | no other ↦
            keep-IsEntry m (without m id) j c (omega arith)
              (v.entries j c (sym (get-delete_ne id j m.entries other) ∙ h))
      ]

  -- `destroy` of an entry takes exactly this entry out of the map and drops its reference once; the
  -- map stays valid, and a second `destroy` answers false and drops nothing.
  pub destroy-delete :
      (m : CapMap O) (id : CapId) (s s' : S) (c : Capability O)
      → IsValid m
      → get id m.entries ≡ some c
      → (destroy t m id s ≡ (true, without m id, t.dec_ref c.object s))
        × IsValid (without m id)
        × ((destroy t (without m id) id s').0 ≡ false)
        × ((destroy t (without m id) id s').2 ≡ s')
  unfolding destroy remove drop
  destroy-delete m id s s' c v e =
      let gone = get-delete_self id m.entries in
      (
        rw (e, destroy, remove) refl,
        without-IsValid m id v,
        rw (gone, destroy, remove) refl,
        rw (gone, destroy, remove) refl,
      )
