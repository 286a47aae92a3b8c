-- ===== src/Misc/Tests.antt =====
-- The helpers of libutil/src/misc.rs at concrete words.
use aurora_os_old.Prelude.{◌*◌, ◌/◌, ◌%◌, ◌^◌, ◌≡◌, none, some, suc, arith}
use aurora_os_old.Misc.{log2, log2_const, get_bits_raw}
use aurora_os_old.Misc.Fields.{get_bits_raw_lem, log2_const-log2, log2_const_diverges}

get_bits_raw_lem_example : get_bits_raw 1234 2 5 ≡ 1234 % 2 ^ suc 5 / 2 ^ 2 * 2 ^ 2
get_bits_raw_lem_example = get_bits_raw_lem 1234 2 5 (omega arith) (omega arith) (omega arith)

log2_const-log2_example : log2_const 64 24 ≡ some (log2 24)
log2_const-log2_example = log2_const-log2 24 (omega arith)

log2_const_diverges_example : log2_const 64 (2 ^ 63) ≡ none
log2_const_diverges_example = log2_const_diverges 64 (2 ^ 63) (omega arith) (omega arith)
