-- ===== src/VirtMap/Pages/Frames.antt =====
-- The frames that `take` cuts off a zone.
use aurora_os_old.Prelude.{
  ℕ, ◌+◌, ◌-◌, ◌%◌, ◌≤◌, ◌<◌, ◌≡◌, refl, ap, Bool-cases, inl, inr, none, some, Option-cases, arith,
  word_mod, leb, leb→le, le→ltb,
}
use native.Mathlib.Decide.{dec_lt}
use aurora_os_old.Mem.{
  PageSize, k4, m2, g1, bytes, Frame, k4_frame, m2_frame, g1_frame, start_addr, frame_end, Range,
  get_take_size, take, new_frame,
}
use aurora_os_old.Mem.PageTake.{Fits, Fits-smaller, get_take_size_lem, get_take_size-none}
use aurora_os_old.VirtMap.Pages.{Pmit, pmit_take_size, pmit_take, min_size}

abbrev pub frame_at : ℕ → PageSize → Frame
frame_at addr k4 = k4_frame addr
frame_at addr m2 = m2_frame addr
frame_at addr g1 = g1_frame addr

pub frame_at-start : (a : ℕ) (s : PageSize) → start_addr (frame_at a s) ≡ a
frame_at-start a k4 = refl
frame_at-start a m2 = refl
frame_at-start a g1 = refl

pub frame_at-end : (a : ℕ) (s : PageSize) → frame_end (frame_at a s) ≡ a + bytes s
frame_at-end a k4 = refl
frame_at-end a m2 = refl
frame_at-end a g1 = refl

pub bytes_pages : (s : PageSize) → (4096 ≤ bytes s) × (bytes s % 4096 ≡ 0)
bytes_pages k4 = (omega arith, refl)
bytes_pages m2 = (omega arith, refl)
bytes_pages g1 = (omega arith, refl)

-- The zone without a page at its start
abbrev pub shorter : Range → PageSize → Range
shorter r s = record { addr = r.addr + bytes s; size = r.size - bytes s }

-- The two zones of a `Pmit` are whole pages, of the same size.
pub record IsPmit (p : Pmit) : Type 0 where
  pub phys_pages : p.phys_zone.addr % 4096 ≡ 0
  pub virt_pages : p.virt_zone.addr % 4096 ≡ 0
  pub same_size : p.phys_zone.size ≡ p.virt_zone.size
  pub size_pages : p.virt_zone.size % 4096 ≡ 0
  pub phys_bound : p.phys_zone.addr + p.phys_zone.size < word_mod
  pub virt_bound : p.virt_zone.addr + p.virt_zone.size < word_mod

min_size-le : (a b : PageSize) → (bytes (min_size a b) ≤ bytes a) × (bytes (min_size a b) ≤ bytes b)
unfolding min_size
min_size-le a b = elim (Bool-cases (leb (bytes a) (bytes b))) [
  | inl e ↦ rw e (omega arith, leb→le (bytes a) (bytes b) e)
  | inr e ↦ elim (dec_lt (bytes b) (bytes a)) [
    | yes h ↦ rw e (omega arith, omega arith)
    | no h ↦ absurd (ground arith)
  ]
]

pub pmit_take_size-some :
    (p : Pmit)
    → IsPmit p
    → 0 < p.virt_zone.size
    → (s : PageSize) × (pmit_take_size p ≡ some s) × Fits p.phys_zone s × Fits p.virt_zone s
unfolding pmit_take_size
pmit_take_size-some p i pos =
    let fp : Fits p.phys_zone k4 = (omega (arith, i.same_size, i.size_pages), i.phys_pages) in
    let fv : Fits p.virt_zone k4 = (omega (arith, i.size_pages), i.virt_pages) in
    let bp : p.phys_zone.addr < word_mod = omega (arith, i.phys_bound) in
    let bv : p.virt_zone.addr < word_mod = omega (arith, i.virt_bound) in
    elim (Option-cases (get_take_size p.phys_zone)) [
      | inl n ↦ absurd (get_take_size-none p.phys_zone k4 bp fp n)
      | inr (a, ea) ↦ elim (Option-cases (get_take_size p.virt_zone)) [
        | inl n ↦ absurd (get_take_size-none p.virt_zone k4 bv fv n)
        | inr (b, eb) ↦
            let (fa, _) = (get_take_size_lem p.phys_zone a bp).0 ea in
            let (fb, _) = (get_take_size_lem p.virt_zone b bv).0 eb in
            let (la, lb) = min_size-le a b in
            (
              min_size a b,
              rw (pmit_take_size, ea, eb) refl,
              Fits-smaller p.phys_zone a (min_size a b) fa la,
              Fits-smaller p.virt_zone b (min_size a b) fb lb,
            )
      ]
    ]

pub pmit_take_size-none : (p : Pmit) → IsPmit p → p.virt_zone.size ≡ 0 → pmit_take_size p ≡ none
unfolding pmit_take_size
pmit_take_size-none p i e = elim (Option-cases (get_take_size p.phys_zone)) [
  | inl n ↦ rw (pmit_take_size, n) refl
  | inr (a, ea) ↦
      let (fa, _) = (get_take_size_lem p.phys_zone a (omega (arith, i.phys_bound))).0 ea in
      absurd (omega (arith, fa.0, (bytes_pages a).0, i.same_size, e))
]

module _ (addr_down addr_up : ℕ → ℕ → ℕ)
    (addr_down_exact : (s : PageSize) (a : ℕ) → a % bytes s ≡ 0 → addr_down a (bytes s) ≡ a) where
  new_frame_lem :
      (a : ℕ) (s : PageSize) → a % bytes s ≡ 0 → new_frame addr_down addr_up a s ≡ frame_at a s
  unfolding new_frame
  new_frame_lem a k4 h = ap k4_frame (addr_down_exact k4 a h)
  new_frame_lem a m2 h = ap m2_frame (addr_down_exact m2 a h)
  new_frame_lem a g1 h = ap g1_frame (addr_down_exact g1 a h)

  take_lem :
      (r : Range) (s : PageSize)
      → r.addr < word_mod
      → Fits r s
      → take addr_down addr_up r s ≡ (some (frame_at r.addr s), shorter r s)
  unfolding take
  take_lem r s bound f = elim (Option-cases (get_take_size r)) [
    | inl n ↦ absurd (get_take_size-none r s bound f n)
    | inr (a, ea) ↦
        let (_, largest) = (get_take_size_lem r a bound).0 ea in
        rw (take, ea, le→ltb (bytes a) (bytes s) (largest s f), new_frame_lem r.addr s f.1) refl
  ]

  pub pmit_take_lem :
      (p : Pmit) (s : PageSize)
      → IsPmit p
      → pmit_take_size p ≡ some s
      → Fits p.phys_zone s
      → Fits p.virt_zone s
      → pmit_take addr_down addr_up p s ≡ (
        some (frame_at p.phys_zone.addr s, frame_at p.virt_zone.addr s),
        record p { phys_zone = shorter p.phys_zone s; virt_zone = shorter p.virt_zone s },
      )
  unfolding pmit_take
  pmit_take_lem p s i e fp fv =
      let tp = take_lem p.phys_zone s (omega (arith, i.phys_bound)) fp in
      let tv = take_lem p.virt_zone s (omega (arith, i.virt_bound)) fv in
      rw
        (
          pmit_take,
          e,
          le→ltb (bytes s) (bytes s) (omega arith),
          tp,
          tv,
          ap (λ t. t.1) tp,
          ap (λ t. t.1) tv,
        )
        refl
