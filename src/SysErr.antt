-- ===== src/SysErr.antt =====
-- sys_consts/src/lib.rs: the error codes of system calls and their numbers.
-- `transmute` makes the variant whose discriminant it is given.
use aurora_os_old.Prelude.{
  ℕ, ◌≡◌, ◌<◌, ◌≤◌, Option, none, some, ltb, ◌==◌, if◌then◌else◌, arith, some_inj, none_ne, sym, ap,
  ◌∙◌, ◌↔◌,
}
use native.Mathlib.Decide.{dec_lt}

pub data SysErr : Type 0 where
  ok ok_unreach ok_timeout out_of_mem invl_id invl_perm invl_weak invl_args : SysErr
  invl_op invl_mem_zone invl_virt_addr invl_align invl_ptr obscured unknown : SysErr

unfoldable pub num : SysErr → ℕ
num ok = 0
num ok_unreach = 1
num ok_timeout = 2
num out_of_mem = 3
num invl_id = 4
num invl_perm = 5
num invl_weak = 6
num invl_args = 7
num invl_op = 8
num invl_mem_zone = 9
num invl_virt_addr = 10
num invl_align = 11
num invl_ptr = 12
num obscured = 13
num unknown = 14

unfoldable pub transmute : ℕ → SysErr
transmute n =
    if n == 0
    then ok
    else if n == 1
    then ok_unreach
    else if n == 2
    then ok_timeout
    else if n == 3
    then out_of_mem
    else if n == 4
    then invl_id
    else if n == 5
    then invl_perm
    else if n == 6
    then invl_weak
    else if n == 7
    then invl_args
    else if n == 8
    then invl_op
    else if n == 9
    then invl_mem_zone
    else if n == 10
    then invl_virt_addr
    else if n == 11
    then invl_align
    else if n == 12
    then invl_ptr
    else if n == 13
    then obscured
    else unknown

unfoldable pub new : ℕ → Option SysErr
new n = if ltb (num unknown) n then none else some (transmute n)

-- Every error is read back from its number.
pub new-num : (e : SysErr) → new (num e) ≡ some e
unfolding new num transmute
new-num e = ground arith

num-transmute : (n : ℕ) → n ≤ 14 → num (transmute n) ≡ n
unfolding num transmute
num-transmute n h = ground arith

num-lt : (e : SysErr) → num e ≤ 14
unfolding num
num-lt e = ground arith

new-of_le : (n : ℕ) → n ≤ 14 → new n ≡ some (transmute n)
unfolding new num
new-of_le n h = ground arith

new-of_lt : (n : ℕ) → 14 < n → new n ≡ none
unfolding new num
new-of_lt n h = ground arith

-- A number is read as an error exactly when it is the number of that error, so that no other
-- number is read.
pub new_iff : (n : ℕ) (e : SysErr) → (new n ≡ some e) ↔ (num e ≡ n)
new_iff n e = (
  λ h. elim (dec_lt 14 n) [
    | yes big ↦ absurd (none_ne e (sym (new-of_lt n big) ∙ h))
    | no small ↦
        ap num (sym (some_inj (transmute n) e (sym (new-of_le n (omega arith)) ∙ h)))
        ∙ num-transmute n (omega arith)
  ],
  λ h. ap new (sym h) ∙ new-num e,
)

-- what a fallible operation of the kernel answers
pub data SysResult (A : Type 0) : Type 0 where
  returns : A → SysResult A
  err : SysErr → SysResult A
