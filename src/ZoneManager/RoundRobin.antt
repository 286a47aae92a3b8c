-- ===== src/ZoneManager/RoundRobin.antt =====
-- `allocer_action` of ZoneManager tries every zone once, from the one that `selnum` selects on.
use aurora_os_old.Prelude.{
  ℕ, zero, suc, ◌+◌, ◌-◌, ◌%◌, ◌≤◌, ◌<◌, ◌≡◌, ◌≢◌, refl, sym, ap, ◌∙◌, Bool, true, false, not, ◌||◌,
  inl, inr, Option, none, some, some_inj, none_ne, Option-cases, List, length, get_elem?, set_elem,
  get_elem?-set_elem_ne, length-set_elem, get_elem?-lt, ltb, ◌==◌, if◌then◌else◌, wadd, arith,
}
use mathlib.Core.Path.{subst}
use native.Mathlib.Decide.{dec_lt}
use native.Mathlib.Nat.{mod-lt, mod-eq_of_lt, mod_self}
use aurora_os_old.ZoneManager.{Allocation, ZoneManager, zlen, action_loop, allocer_action}

-- The `k`-th index from `start` on, of `n`
abbrev pub turn : (start n k : ℕ) → ℕ
turn start n k = if ltb (start + k) n then start + k else start + k - n

turn-lt : (start n k : ℕ) → start < n → k ≤ n → turn start n k < n
turn-lt start n k h g = ground arith

turn-suc : (start n k : ℕ) → start < n → k < n → (turn start n k + 1) % n ≡ turn start n (suc k)
turn-suc start n k h g = elim (dec_lt (turn start n k + 1) n) [
  | yes p ↦ mod-eq_of_lt p ∙ ground arith
  | no p ↦
      let e : turn start n k + 1 ≡ n = ground arith in ap (λ x. x % n) e ∙ mod_self n ∙ ground arith
]

turn-start : (start n k : ℕ) → start < n → 0 < k → k < n → turn start n k ≢ start
turn-start start n k h p g = ground arith

turn-apart : (start n j k : ℕ) → start < n → j < n → k < j → turn start n j ≢ turn start n k
turn-apart start n j k h p g = ground arith

-- every index below `n` has its turn
turn_onto : (start n i : ℕ) → start < n → i < n → (k : ℕ) × (k < n) × (turn start n k ≡ i)
turn_onto start n i h g = elim (dec_lt i start) [
  | yes p ↦ (i + n - start, omega arith, ground arith)
  | no p ↦ (i - start, omega arith, ground arith)
]

module _ {B : Type 0} (act : B → Option Allocation × B) (zs₀ : List B) (start : ℕ) where
  -- The zone whose turn is the `j`-th refuses.
  abbrev pub Refuses : ℕ → Type 0
  Refuses j = (b : B) → get_elem? zs₀ (turn start (length zs₀) j) ≡ some b → (act b).0 ≡ none

  -- An answer: the first zone that does not refuse gives it, or all refuse.
  pub record IsTried (answer : Option Allocation) : Type 0 where
    pub refused : answer ≡ none → (j : ℕ) → j < length zs₀ → Refuses j
    pub answered :
        (a : Allocation)
        → answer ≡ some a
        → (j : ℕ) × (b : B) × (m : Allocation) × (j < length zs₀)
          × (get_elem? zs₀ (turn start (length zs₀) j) ≡ some b)
          × ((act b).0 ≡ some m)
          × (a ≡ record m { zindex = turn start (length zs₀) j })
          × ((i : ℕ) → i < j → Refuses i)

  -- Before the `k`-th turn: the zones before have refused, and those from it on are as they were.
  record IsBefore (k : ℕ) (zs : List B) : Type 0 where
    same_length : length zs ≡ length zs₀
    refused : (j : ℕ) → j < k → Refuses j
    untouched :
        (j : ℕ)
        → k ≤ j
        → j < length zs₀
        → get_elem? zs (turn start (length zs₀) j) ≡ get_elem? zs₀ (turn start (length zs₀) j)

  next-IsBefore :
      (k : ℕ) (zs : List B) (b b' : B)
      → start < length zs₀
      → k < length zs₀
      → get_elem? zs₀ (turn start (length zs₀) k) ≡ some b
      → (act b).0 ≡ none
      → IsBefore k zs
      → IsBefore (suc k) (set_elem (turn start (length zs₀) k) b' zs)
  next-IsBefore k zs b b' s h e r p = record {
    same_length = length-set_elem (turn start (length zs₀) k) b' zs ∙ p.same_length;
    refused = λ j g c d. elim (dec_lt j k) [
      | yes q ↦ p.refused j q c d
      | no q ↦
          let here : j ≡ k = omega arith in
          let same : get_elem? zs₀ (turn start (length zs₀) k) ≡ some c = rw (← here) d in
          rw (← some_inj b c (sym e ∙ same)) r
    ];
    untouched = λ j g l.
        get_elem?-set_elem_ne (turn start (length zs₀) k) (turn start (length zs₀) j) b' zs
          (λ t. turn-apart start (length zs₀) j k s l (omega arith) (sym t))
        ∙ p.untouched j (omega arith) l;
  }

  Tried : (f i : ℕ) (flag : Bool) → List B → Type 0
  Tried f i flag zs =
      (r : Option Allocation × List B) × (action_loop act f start i flag zs ≡ some r) × IsTried r.0

  loop_stop :
      (f : ℕ) (zs : List B) → ((j : ℕ) → j < length zs₀ → Refuses j) → Tried (suc f) start false zs
  unfolding Tried action_loop
  loop_stop f zs h = (
    (none, zs),
    (let t : (start == start) ≡ true = ground arith in rw (action_loop, t) refl),
    record { refused = λ e. h; answered = λ a e. absurd (none_ne a e) },
  )

  -- A turn of the loop, with the zone `b` there
  loop_turn :
      (f k : ℕ) (flag : Bool) (zs : List B) (b : B)
      → start < length zs₀
      → k < length zs₀
      → (not (turn start (length zs₀) k == start) || flag) ≡ true
      → get_elem? zs (turn start (length zs₀) k) ≡ some b
      → IsBefore k zs
      → (IsBefore (suc k) (set_elem (turn start (length zs₀) k) (act b).1 zs)
          → Tried f
              (turn start (length zs₀) (suc k))
              false
              (set_elem (turn start (length zs₀) k) (act b).1 zs))
      → Tried (suc f) (turn start (length zs₀) k) flag zs
  unfolding Tried action_loop
  loop_turn f k flag zs b s h go e p next =
      let i = turn start (length zs₀) k in
      let e₀ = sym (p.untouched k (omega arith) h) ∙ e in
      let step = ap (λ n. (i + 1) % n) p.same_length ∙ turn-suc start (length zs₀) k s h in
      elim (Option-cases (act b).0) [
        | inl n ↦
            let (r, run, t) = next (next-IsBefore k zs b (act b).1 s h e₀ n p) in
            (r, rw (action_loop, go, e, n, step) run, t)
        | inr (m, n) ↦ (
          (some (record m { zindex = i }), set_elem i (act b).1 zs),
          rw (action_loop, go, e, n) refl,
          record {
            refused = λ x. absurd (none_ne _ (sym x));
            answered = λ a x. (k, b, m, h, e₀, n, sym (some_inj _ a x), p.refused);
          },
        )
      ]

  loop-Tried :
      (left f k : ℕ) (zs : List B)
      → start < length zs₀
      → left + k ≡ length zs₀
      → left < f
      → 0 < k
      → IsBefore k zs
      → Tried f (turn start (length zs₀) k) false zs
  loop-Tried left zero k zs s e g pos p = absurd (omega arith)
  loop-Tried zero (suc f) k zs s e g pos p =
      let i : turn start (length zs₀) k ≡ start = ground arith in
      rw i (loop_stop f zs (λ j h. p.refused j (omega arith)))
  loop-Tried (suc left) (suc f) k zs s e g pos p =
      let (b, here) =
        get_elem?-lt (turn start (length zs₀) k) zs
          (omega (arith, p.same_length, turn-lt start (length zs₀) k s (omega arith))) in
      let go : (not (turn start (length zs₀) k == start) || false) ≡ true =
        let d = turn-start start (length zs₀) k s pos (omega arith) in ground arith in
      loop_turn f k false zs b s (omega arith) go here p
        (λ p'. loop-Tried left f (suc k) _ s (omega arith) (omega arith) (omega arith) p')

first-Tried :
    {B : Type 0} (act : B → Option Allocation × B) (zs : List B) (start : ℕ)
    → start < length zs
    → Tried act zs start (suc (length zs)) start true zs
first-Tried act zs start s =
    let n = length zs in
    let (b, here) = get_elem?-lt (turn start n 0) zs (turn-lt start n 0 s (omega arith)) in
    let i : turn start n 0 ≡ start = ground arith in
    let p : IsBefore act zs start 0 zs = record {
      same_length = refl;
      refused = λ j h. absurd (omega arith);
      untouched = λ j g h. refl;
    } in
    let go : (not (turn start n 0 == start) || true) ≡ true = ground arith in
    subst (λ x. Tried act zs start (suc n) x true zs) i
      (loop_turn act zs start n 0 true zs b s (omega arith) go here p
        (loop-Tried act zs start (n - 1) n 1 _ s (omega arith) (omega arith) (omega arith)))

module _ {B : Type 0} (act : B → Option Allocation × B) where
  -- Where there is a zone, `allocer_action` ends, and its answer is that of the first zone that does
  -- not refuse, with the index of that zone, counted from the zone `selnum % zlen` on and around; it
  -- is none only where all zones refuse.
  pub allocer_action-IsTried :
      (z : ZoneManager B)
      → 0 < zlen z
      → (r : Option Allocation × ZoneManager B) × (allocer_action act z ≡ some r)
        × IsTried act z.zones (z.selnum % zlen z) r.0
  unfolding allocer_action Tried
  allocer_action-IsTried z pos =
      let start = z.selnum % zlen z in
      let fuel : zlen z + 1 ≡ suc (zlen z) = omega arith in
      let filled : (zlen z == 0) ≡ false = ground arith in
      let (r, run, t) = first-Tried act z.zones start (mod-lt z.selnum pos) in
      (
        (r.0, record { zones = r.1; selnum = wadd z.selnum 1 }),
        rw (allocer_action, filled, fuel, run) refl,
        t,
      )
