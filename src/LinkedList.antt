-- ===== src/LinkedList.antt =====
-- libutil/src/collections/linked_list.rs: the intrusive doubly linked list. A node is an address;
-- `Mem` holds the two link fields of every node (`next_ptr`, `prev_ptr`), so lists that share
-- memory are modelled. A list value is the new list; a `UniqueMut` result is the node passed in.
-- `none` is a panic: `as_ref().unwrap()` of a null pointer, or a failed assertion.
pub mod Seg
pub mod Write
pub mod Ends
pub mod Cut
pub mod Unlink
pub mod Insert
pub mod Index
pub mod Walk
pub mod Join
mod Tests
use aurora_os_old.Prelude.{
  ℕ, zero, suc, ◌+◌, ◌-◌, ◌*◌, Bool, Option, none, some, ◌==◌, ltb, leb, if◌then◌else◌,
}

abbrev pub Ptr : Type 0
Ptr = ℕ

abbrev pub null : Ptr
null = 0

-- The link fields that `impl_list_node!` reads and writes.
pub record Mem : Type 0 where
  pub next : Ptr → Ptr
  pub prev : Ptr → Ptr

abbrev pub update : (Ptr → Ptr) → Ptr → Ptr → Ptr → Ptr
update f p q a = if a == p then q else f a

abbrev pub M : Type 0 → Type 0
M A = Mem → Option (A × Mem)

abbrev pub pure : {A : Type 0} → A → M A
pure a m = some (a, m)

abbrev pub panic : {A : Type 0} → M A
panic m = none

abbrev pub and_then : {A B : Type 0} → Option (A × Mem) → (A → M B) → Option (B × Mem)
and_then none k = none
and_then (some (a, m)) k = k a m

infixl 5 ◌>>=◌ ◌>>◌
abbrev pub ◌>>=◌ : {A B : Type 0} → M A → (A → M B) → M B
c >>= k = λ m. and_then (c m) k

abbrev pub ◌>>◌ : {B : Type 0} → M (Unit {0}) → M B → M B
c >> k = c >>= λ _. k

unfoldable pub next_ptr : Ptr → M Ptr
next_ptr p m = if p == null then none else some (m.next p, m)

unfoldable pub prev_ptr : Ptr → M Ptr
prev_ptr p m = if p == null then none else some (m.prev p, m)

unfoldable pub set_next : Ptr → Ptr → M (Unit {0})
set_next p q m = if p == null then none else some (tt, record m { next = update m.next p q })

unfoldable pub set_prev : Ptr → Ptr → M (Unit {0})
set_prev p q m = if p == null then none else some (tt, record m { prev = update m.prev p q })

pub record LinkedList : Type 0 where
  pub start : Ptr
  pub end : Ptr
  pub len : ℕ

unfoldable pub new : LinkedList
new = record { start = null; end = null; len = 0 }

unfoldable pub push : LinkedList → Ptr → M LinkedList
push l val =
    if l.len == 0
    then (do
      set_prev val null
      set_next val null
      pure (record { start = val; end = val; len = l.len + 1 }))
    else do
      set_next l.end val
      set_prev val l.end
      set_next val null
      pure (record l { end = val; len = l.len + 1 })

unfoldable pub pop : LinkedList → M (Option Ptr × LinkedList)
pop l =
    if l.len == 0
    then pure (none, l)
    else if ltb 1 l.len
    then (do
      e ← prev_ptr l.end
      set_next e null
      pure (some l.end, record l { end = e; len = l.len - 1 }))
    else (if l.end == null then panic else pure (some l.end, record l { len = l.len - 1 }))

unfoldable pub push_front : LinkedList → Ptr → M LinkedList
push_front l val =
    if l.len == 0
    then (do
      set_prev val null
      set_next val null
      pure (record { start = val; end = val; len = l.len + 1 }))
    else do
      set_prev l.start val
      set_next val l.start
      set_prev val null
      pure (record l { start = val; len = l.len + 1 })

unfoldable pub pop_front : LinkedList → M (Option Ptr × LinkedList)
pop_front l =
    if l.len == 0
    then pure (none, l)
    else if ltb 1 l.len
    then (do
      s ← next_ptr l.start
      set_prev s null
      pure (some l.start, record l { start = s; len = l.len - 1 }))
    else (if l.start == null then panic else pure (some l.start, record l { len = l.len - 1 }))

unfoldable pub insert_before : LinkedList → (new_node node : Ptr) → M LinkedList
insert_before l new_node node = if l.len == 0 then panic else do
  p ← prev_ptr node
  l' ←
      (if p == null
        then (do set_prev new_node null; pure (record l { start = new_node; len = l.len + 1 }))
        else do set_prev new_node p; set_next p new_node; pure (record l { len = l.len + 1 }))
  set_prev node new_node
  set_next new_node node
  pure l'

unfoldable pub insert_after : LinkedList → (new_node node : Ptr) → M LinkedList
insert_after l new_node node = if l.len == 0 then panic else do
  n ← next_ptr node
  l' ←
      (if n == null
        then (do set_next new_node null; pure (record l { end = new_node; len = l.len + 1 }))
        else do set_next new_node n; set_prev n new_node; pure (record l { len = l.len + 1 }))
  set_next node new_node
  set_prev new_node node
  pure l'

unfoldable pub remove_node : LinkedList → Ptr → M LinkedList
remove_node l node = do
  prev ← prev_ptr node
  next ← next_ptr node
  l' ← (if prev == null then pure (record l { start = next }) else do set_next prev next; pure l)
  l'' ← (if next == null then pure (record l' { end = prev }) else do set_prev next prev; pure l')
  pure (record l'' { len = l''.len - 1 })

unfoldable pub update_node : LinkedList → (old new_node : Ptr) → M LinkedList
update_node l old new_node = do
  p ← prev_ptr old
  l' ←
      (if p == null
        then (do set_prev new_node null; pure (record l { start = new_node }))
        else do set_next p new_node; set_prev new_node p; pure l)
  n ← next_ptr old
  if n == null
      then (do set_next new_node null; pure (record l' { end = new_node }))
      else do set_prev n new_node; set_next new_node n; pure l'

-- Returns both lists, `self` first.
unfoldable pub append : (l other : LinkedList) → M (LinkedList × LinkedList)
append l other =
    if other.len == 0
    then pure (l, other)
    else if l.len == 0
    then pure (record { start = other.start; end = other.end; len = other.len }, new)
    else do
      set_next l.end other.start
      set_prev other.start l.end
      pure (record l { end = other.end }, new)

-- The two loops of `get_node`, over the rounds left.
unfoldable pub walk_back : ℕ → Ptr → M Ptr
walk_back zero node = pure node
walk_back (suc k) node = do p ← prev_ptr node; if p == null then panic else walk_back k p

unfoldable pub walk : ℕ → Ptr → M Ptr
walk zero node = pure node
walk (suc k) node = do n ← next_ptr node; if n == null then panic else walk k n

unfoldable pub get_node : LinkedList → ℕ → M Ptr
get_node l index =
    if leb l.len index
    then panic
    else if ltb l.len (index * 2)
    then (if l.end == null then panic else walk_back (l.len - index - 1) l.end)
    else (if l.start == null then panic else walk index l.start)

unfoldable pub get : LinkedList → ℕ → M (Option Ptr)
get l index = if leb l.len index then pure none else do node ← get_node l index; pure (some node)

unfoldable pub insert : LinkedList → ℕ → Ptr → M (Option Ptr × LinkedList)
insert l index val =
    if ltb l.len index
    then pure (none, l)
    else if index == 0
    then (do l' ← push_front l val; pure (some val, l'))
    else if index == l.len
    then (do l' ← push l val; pure (some val, l'))
    else do node ← get_node l index; l' ← insert_before l val node; pure (some val, l')

unfoldable pub remove : LinkedList → ℕ → M (Option Ptr × LinkedList)
remove l index =
    if leb l.len index
    then pure (none, l)
    else if index == 0
    then pop_front l
    else if index == l.len - 1
    then pop l
    else do node ← get_node l index; l' ← remove_node l node; pure (some node, l')

pub record Iter : Type 0 where
  pub start : Ptr
  pub end : Ptr
  pub len : ℕ

unfoldable pub iter : LinkedList → Iter
iter l = record { start = l.start; end = l.end; len = l.len }

unfoldable pub next : Iter → M (Option Ptr × Iter)
next it =
    if it.len == 0
    then pure (none, it)
    else do n ← next_ptr it.start; pure (some it.start, record it { start = n; len = it.len - 1 })

unfoldable pub next_back : Iter → M (Option Ptr × Iter)
next_back it =
    if it.len == 0
    then pure (none, it)
    else do p ← prev_ptr it.end; pure (some it.end, record it { end = p; len = it.len - 1 })
