-- ===== src/VirtMap/Space/Exclude.antt =====
-- `free_space` of kernel/src/mem/virt_alloc.rs with a zone to be left out.
use aurora_os_old.Prelude.{
  ℕ, ◌≤◌, ◌<◌, ◌≡◌, sym, ap, ◌∙◌, inl, inr, true, false, Bool-cases, none, some, some_inj, none_ne,
  Option-cases, List, [],
}
use aurora_os_old.Mem.{Range}
use aurora_os_old.VirtMap.Space.{
  range_lt, range_eq, remove, prev_iter, next_iter, first, free_space, skip_prev, skip_next,
}
use aurora_os_old.VirtMap.Space.Zones.{Placed}
use aurora_os_old.VirtMap.Space.Entries.{Zone, remove-Placed, remove-Clear, range_eq→≡}
use aurora_os_old.VirtMap.Space.Lookup.{prev-Zone}
use aurora_os_old.VirtMap.Space.Find.{IsFree}
use aurora_os_old.VirtMap.Space.Free.{both, free_space_lem, around_IsFree}
use aurora_os_old.VirtMap.Space.Skip.{
  before_ne, prev-lt, next-remove, prev-remove, skip_prev_same, skip_prev_other, skip_next_other,
  Placed-size, Clear-overlap, removed_ne,
}

module _ {V : Type 0} where
  -- `free_space` with `j` left out, which is the last zone before `k`
  space_before :
      (lo hi : ℕ) (j k : Range) (m : List (Range × V))
      → Placed lo hi m
      → Zone j m
      → range_lt j k ≡ true
      → first (prev_iter k m) ≡ some j
      → free_space hi k (some j) m
        ≡ both hi k (first (prev_iter k (remove j m))) (first (next_iter k (remove j m)))
  unfolding prev_iter
  space_before lo hi j k m p z l e =
      let before : skip_prev (some j) (prev_iter k m) ≡ first (prev_iter k (remove j m)) =
        skip_prev_same j (prev_iter k m) e ∙ prev-remove lo hi j k [] m p z l e in
      let apart : (q : Range) → first (prev_iter k (remove j m)) ≡ some q → range_eq q j ≡ false =
        λ q h. elim (prev-Zone k q [] (remove j m) h) [
          | inl n ↦ absurd (none_ne q n)
          | inr y ↦ removed_ne lo hi j q m p z y
        ] in
      free_space_lem hi k (some j) m
      ∙ ap (λ o. both hi k o (skip_next (some j) o (next_iter k m))) before
      ∙ ap (λ n. both hi k (first (prev_iter k (remove j m))) n)
          (skip_next_other j (first (prev_iter k (remove j m))) (next_iter k m) apart
            ∙ sym (next-remove j k m l))

  -- `free_space` with `j` left out, which is not the last zone before `k`
  space_other :
      (hi : ℕ) (j k : Range) (m : List (Range × V))
      → ((q : Range) → first (prev_iter k m) ≡ some q → range_eq q j ≡ false)
      → free_space hi k (some j) m ≡ both hi k (first (prev_iter k m)) (first (next_iter k m))
  space_other hi j k m apart =
      let before = skip_prev_other j (prev_iter k m) apart in
      free_space_lem hi k (some j) m
      ∙ ap (λ o. both hi k o (skip_next (some j) o (next_iter k m))) before
      ∙ ap (λ n. both hi k (first (prev_iter k m)) n)
          (skip_next_other j (first (prev_iter k m)) (next_iter k m) apart)

  pub free_space-exclude :
      (hi : ℕ) (j k : Range) (m : List (Range × V)) (s : ℕ × ℕ)
      → 0 < k.size
      → Placed 4096 hi m
      → Zone j m
      → free_space hi k (some j) m ≡ some s
      → IsFree hi k (remove j m)
  unfolding prev_iter
  free_space-exclude hi j k m s i p z e = elim (Option-cases (first (prev_iter k m))) [
    | inl n ↦
        let f =
          around_IsFree hi k m s i p
            (sym (space_other hi j k m (λ q h. absurd (none_ne q (sym n ∙ h)))) ∙ e) in
        record { low = f.low; high = f.high; clear = remove-Clear k j m f.clear }
    | inr (q, h) ↦ elim (Bool-cases (range_eq q j)) [
      | inl same ↦
          let h' : first (prev_iter k m) ≡ some j = h ∙ ap some (range_eq→≡ q j same) in
          let l : range_lt j k ≡ true = elim (prev-lt k j [] m h') [
            | inl n ↦ absurd (none_ne j n)
            | inr l ↦ l
          ] in
          around_IsFree hi k (remove j m) s i (remove-Placed 4096 hi j m p)
            (sym (space_before 4096 hi j k m p z l h') ∙ e)
      | inr other ↦
          let apart : (r : Range) → first (prev_iter k m) ≡ some r → range_eq r j ≡ false =
            λ r g. rw (← some_inj q r (sym h ∙ g)) other in
          let f = around_IsFree hi k m s i p (sym (space_other hi j k m apart) ∙ e) in
          record { low = f.low; high = f.high; clear = remove-Clear k j m f.clear }
    ]
  ]

  -- Where the zones are whole pages from the second page on up to `hi`, in order and apart,
  -- `free_space` finds no space for a range of whole pages that begins where the zone left out begins
  -- and is no larger.
  pub free_space-shrunk :
      (hi : ℕ) (j k : Range) (m : List (Range × V))
      → 0 < k.size
      → Placed 4096 hi m
      → Zone j m
      → k.addr ≡ j.addr
      → k.size ≤ j.size
      → free_space hi k (some j) m ≡ none
  unfolding prev_iter
  free_space-shrunk hi j k m i p z a s =
      let apart : (q : Range) → first (prev_iter k m) ≡ some q → range_eq q j ≡ false = λ q h.
        elim (prev-lt k q [] m h) [
          | inl n ↦ absurd (none_ne q n)
          | inr l ↦ before_ne q j k a s l
        ] in
      elim (Option-cases (free_space hi k (some j) m)) [
        | inl n ↦ n
        | inr (t, e) ↦
            let f = around_IsFree hi k m t i p (sym (space_other hi j k m apart) ∙ e) in
            absurd (Clear-overlap k j m i (Placed-size 4096 hi j m p z) a f.clear z)
      ]
