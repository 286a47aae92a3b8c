-- ===== src/Sched/Queue.antt =====
-- The queue of a state as a place in the thread list: what a write leaves there.
use aurora_os_old.Prelude.{
  ℕ, ◌≡◌, refl, ap, Option, none, some, List, get_elem?, set_elem, get_elem?-set_elem,
  set_elem-set_elem, set_elem-get_elem?, some_inj, none_ne,
}
use aurora_os_old.Prelude.Dict
use aurora_os_old.Sched.{
  ThreadState, running, ready, idle, destroy, waiting, sleep, join, futex_block, listening, Thread,
  ThreadList, found, get, get_mut,
}

found-inj : (o : Option (List Thread)) (q : List Thread) → found o ≡ some (some q) → o ≡ some q
unfolding found
found-inj none q h = absurd (none_ne (some q) h)
found-inj (some r) q h = some_inj (some r) (some q) h

found-some : (o : Option (List Thread)) (q : List Thread) → o ≡ some q → found o ≡ some (some q)
unfolding found
found-some o q h = rw h refl

at_index :
    (p : ℕ) (q r : List Thread) (qs : List (List Thread))
    → found (get_elem? qs p) ≡ some (some q)
    → found (get_elem? (set_elem p r qs) p) ≡ some (some r)
at_index p q r qs h =
    found-some (get_elem? (set_elem p r qs) p) r
      (get_elem?-set_elem p q r qs (found-inj (get_elem? qs p) q h))

-- A queue that is there can be written, and is then what was written.
pub get-get_mut :
    (p : ℕ) (st : ThreadState) (q r : List Thread) (l : ThreadList)
    → get p st l ≡ some (some q)
    → get p st (get_mut p st r l) ≡ some (some r)
unfolding get get_mut
get-get_mut p running q r l h = at_index p q r l.runs h
get-get_mut p ready q r l h = refl
get-get_mut p idle q r l h = at_index p q r l.idles h
get-get_mut p destroy q r l h = refl
get-get_mut p (waiting t) q r l h = ap (λ o. some o) (Dict.get-put_self t r l.waits)
get-get_mut p (sleep n) q r l h = refl
get-get_mut p (join t) q r l h = ap (λ o. some o) (Dict.get-put_self t r l.joins)
get-get_mut p (futex_block t) q r l h = ap (λ o. some o) (Dict.get-put_self t r l.futexes)
get-get_mut p (listening t) q r l h = ap (λ o. some o) (Dict.get-put_self t r l.conn_waits)

pub get_mut-get_mut :
    (p : ℕ) (st : ThreadState) (q r : List Thread) (l : ThreadList)
    → get_mut p st r (get_mut p st q l) ≡ get_mut p st r l
unfolding get_mut
get_mut-get_mut p running q r l = ap (λ x. record l { runs = x }) (set_elem-set_elem p q r l.runs)
get_mut-get_mut p ready q r l = refl
get_mut-get_mut p idle q r l = ap (λ x. record l { idles = x }) (set_elem-set_elem p q r l.idles)
get_mut-get_mut p destroy q r l = refl
get_mut-get_mut p (waiting t) q r l = ap (λ x. record l { waits = x }) (Dict.put-put t q r l.waits)
get_mut-get_mut p (sleep n) q r l = refl
get_mut-get_mut p (join t) q r l = ap (λ x. record l { joins = x }) (Dict.put-put t q r l.joins)
get_mut-get_mut p (futex_block t) q r l =
    ap (λ x. record l { futexes = x }) (Dict.put-put t q r l.futexes)
get_mut-get_mut p (listening t) q r l =
    ap (λ x. record l { conn_waits = x }) (Dict.put-put t q r l.conn_waits)

-- Writing what is there changes nothing.
pub get_mut-get :
    (p : ℕ) (st : ThreadState) (q : List Thread) (l : ThreadList)
    → get p st l ≡ some (some q)
    → get_mut p st q l ≡ l
unfolding get get_mut
get_mut-get p running q l h =
    ap (λ x. record l { runs = x })
      (set_elem-get_elem? p q l.runs (found-inj (get_elem? l.runs p) q h))
get_mut-get p ready q l h = cc
get_mut-get p idle q l h =
    ap (λ x. record l { idles = x })
      (set_elem-get_elem? p q l.idles (found-inj (get_elem? l.idles p) q h))
get_mut-get p destroy q l h = cc
get_mut-get p (waiting t) q l h =
    ap (λ x. record l { waits = x })
      (Dict.put-get t q l.waits (some_inj (Dict.get t l.waits) (some q) h))
get_mut-get p (sleep n) q l h = cc
get_mut-get p (join t) q l h =
    ap (λ x. record l { joins = x })
      (Dict.put-get t q l.joins (some_inj (Dict.get t l.joins) (some q) h))
get_mut-get p (futex_block t) q l h =
    ap (λ x. record l { futexes = x })
      (Dict.put-get t q l.futexes (some_inj (Dict.get t l.futexes) (some q) h))
get_mut-get p (listening t) q l h =
    ap (λ x. record l { conn_waits = x })
      (Dict.put-get t q l.conn_waits (some_inj (Dict.get t l.conn_waits) (some q) h))
