-- ===== src/Mem.antt =====
-- kernel/src/mem/mod.rs: page sizes, frames and ranges of addresses, the same for physical and for
-- virtual addresses. An address is its number. `addr_down` and `addr_up` are `align_down` and
-- `align_up` of the address types, which come from the x86_64 crate, and `canonical` is the test of
-- their `try_new`. The sum of an address and a size is that of the numbers, which is exact for a
-- physical address and in the lower half of the virtual ones, below `lower_end`; behind it the crate
-- copies bit 47 to the bits above or panics, and VirtMap, where such sums are made for zones that are
-- looked for and mapped, has the crate's `VirtAddr::new` as a parameter.
pub mod PageTake
pub mod Split
mod Tests
use aurora_os_old.Prelude.{
  ℕ, ◌+◌, ◌-◌, Bool, true, false, ◌&&◌, ◌||◌, not, min, Option, none, some, ltb, leb, ◌==◌,
  if◌then◌else◌, wadd, wsub, wshl,
}
use aurora_os_old.Misc.{align_up, align_of, log2, page_size}
use aurora_os_old.SysErr.{SysResult, returns, err, invl_virt_addr, invl_ptr}

pub data PageSize : Type 0 where
  k4 : PageSize
  m2 : PageSize
  g1 : PageSize

-- the value of a variant
abbrev pub bytes : PageSize → ℕ
bytes k4 = 4096
bytes m2 = 2097152
bytes g1 = 1073741824

unfoldable pub align_down_to_page_size : ℕ → ℕ
align_down_to_page_size n =
    if leb (bytes g1) n
    then bytes g1
    else if leb (bytes m2) n
    then bytes m2
    else if leb (bytes k4) n
    then bytes k4
    else 0

unfoldable pub try_from_usize : ℕ → Option PageSize
try_from_usize n =
    if n == bytes k4
    then some k4
    else if n == bytes m2
    then some m2
    else if n == bytes g1
    then some g1
    else none

pub data Frame : Type 0 where
  k4_frame : (addr : ℕ) → Frame
  m2_frame : (addr : ℕ) → Frame
  g1_frame : (addr : ℕ) → Frame

abbrev pub start_addr : Frame → ℕ
start_addr (k4_frame addr) = addr
start_addr (m2_frame addr) = addr
start_addr (g1_frame addr) = addr

abbrev pub get_size : Frame → PageSize
get_size (k4_frame addr) = k4
get_size (m2_frame addr) = m2
get_size (g1_frame addr) = g1

-- `end_addr` of a frame
abbrev pub frame_end : Frame → ℕ
frame_end (k4_frame addr) = addr + bytes k4
frame_end (m2_frame addr) = addr + bytes m2
frame_end (g1_frame addr) = addr + bytes g1

pub record Range : Type 0 where
  pub addr : ℕ
  pub size : ℕ

-- The end of the lower half of the virtual addresses, 2 ^ 47
abbrev pub lower_end : ℕ
lower_end = 140737488355328

-- `end_usize`, and `end_addr` below `lower_end`
abbrev pub end_addr : Range → ℕ
end_addr r = r.addr + r.size

-- `null` of a range
abbrev pub null : Range
null = record { addr = 0; size = 0 }

unfoldable pub is_aligned : Range → Bool
is_aligned r = leb page_size (align_of r.addr) && leb page_size (align_of (end_addr r))

abbrev pub contains : Range → ℕ → Bool
contains r a = leb r.addr a && ltb a (r.addr + r.size)

unfoldable pub contains_range : Range → Range → Bool
contains_range r other = contains r other.addr || contains r (other.addr + other.size)

unfoldable pub full_contains_range : Range → Range → Bool
full_contains_range r other = contains r other.addr && contains r (other.addr + other.size)

unfoldable pub merge : Range → Range → Option Range
merge r other =
    if end_addr r == other.addr
    then some (record { addr = r.addr; size = r.size + other.size })
    else if end_addr other == r.addr
    then some (record { addr = other.addr; size = r.size + other.size })
    else none

-- The two ranges that `split_at` can give, before `begin` and from `end` on
abbrev pub before : Range → ℕ → Range
before r begin = record { addr = r.addr; size = begin - r.addr }

abbrev pub behind : Range → ℕ → Range
behind r end = record { addr = end; size = r.addr + r.size - end }

-- The outer `none` is the panic of the address before `begin` where that is 0.
unfoldable pub split_at : Range → Range → Option (Option Range × Option Range)
split_at r range =
    let begin = range.addr in
    let end = begin + range.size in
    let low = contains r (begin - 1) in
    let high = contains r (end + 1) in
    if not (contains_range r range)
    then some (some r, none)
    else if leb begin r.addr && leb (r.addr + r.size) end
    then some (none, none)
    else if begin == 0
    then none
    else if low && not high
    then some (some (before r begin), none)
    else if high && not low
    then some (some (behind r end), none)
    else some (some (before r begin), some (behind r end))

unfoldable pub get_take_size : Range → Option PageSize
get_take_size r =
    try_from_usize
      (min (align_down_to_page_size r.size) (align_down_to_page_size (align_of r.addr)))

module _ (addr_down addr_up : ℕ → ℕ → ℕ) where
  -- `new` of a frame
  unfoldable pub new_frame : ℕ → PageSize → Frame
  new_frame addr k4 = k4_frame (addr_down addr (bytes k4))
  new_frame addr m2 = m2_frame (addr_down addr (bytes m2))
  new_frame addr g1 = g1_frame (addr_down addr (bytes g1))

  -- `new` of a range
  unfoldable pub new : (addr size : ℕ) → Range
  new addr size = record { addr = addr_down addr (bytes k4); size = align_up size (bytes k4) }

  unfoldable pub new_aligned : (addr size : ℕ) → Range
  new_aligned addr size =
      let addr2 = addr_up (addr + size) (bytes k4) in
      record { addr = addr_down addr (bytes k4); size = align_up (addr2 - addr) (bytes k4) }

  unfoldable pub aligned : Range → Range
  aligned r = new_aligned r.addr r.size

  -- `take`: the frame, and the range afterwards
  unfoldable pub take : Range → PageSize → Option Frame × Range
  take r size = elim (get_take_size r) [
    | none ↦ (none, r)
    | some take_size ↦ if ltb (bytes take_size) (bytes size) then (none, r) else (
      some (new_frame r.addr size),
      record { addr = r.addr + bytes size; size = r.size - bytes size },
    )
  ]

  -- `next` of the iterator over a range: the outer `none` is the panic of `from_u64`, and the state is
  -- its `start`, whose sum with the size is computed before the frame.
  unfoldable pub next : (start end : ℕ) → Option (Option Frame × ℕ)
  next start end =
      let size = align_down_to_page_size (min (align_of start) (wshl 1 (log2 (end - start)))) in
      if leb end start then some (none, start) else elim (try_from_usize size) [
        | none ↦ none
        | some page ↦ some (some (new_frame (start + size) page), start + size)
      ]

-- `verify_uaddr` and `verify_umem` of kernel/src/syscall/udata.rs; `kernel_vma` is where the kernel's
-- addresses begin.
unfoldable pub verify_uaddr : (kernel_vma addr : ℕ) → Bool
verify_uaddr kernel_vma addr = ltb addr kernel_vma

unfoldable pub verify_umem : (kernel_vma addr size : ℕ) → Bool
verify_umem kernel_vma addr size = verify_uaddr kernel_vma (wsub (wadd addr size) 1)

module _ (canonical : ℕ → Bool) where
  unfoldable pub try_new_usize : (addr size : ℕ) → SysResult Range
  try_new_usize addr size =
      if not (canonical addr)
      then err invl_virt_addr
      else if ltb (align_of addr) page_size || ltb (align_of size) page_size
      then err invl_ptr
      else returns (record { addr = addr; size = size })

  unfoldable pub try_new_user : (kernel_vma addr size : ℕ) → SysResult Range
  try_new_user kernel_vma addr size = elim (try_new_usize addr size) [
    | err e ↦ err e
    | returns r ↦ if not (verify_umem kernel_vma r.addr r.size) then err invl_ptr else returns r
  ]
