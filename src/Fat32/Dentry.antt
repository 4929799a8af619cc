-- ===== src/Fat32/Dentry.antt =====
-- include/fs/fat32.h: the entries of a sector of a directory. A buffer is its bytes, with those that
-- stand in memory behind the sector; an entry is its index, and 0 long-name entry is `none`.
pub mod Next
use arm64_os.Base.{
  ℕ, zero, suc, ◌+◌, ◌*◌, Bool, true, false, Option, none, some, ◌==◌, not, ◌&&◌, if◌then◌else◌,
}
use arm64_os.Fat32.{Bytes, dentry_get_cluster, dentry_get_file_size}

-- the bytes of the entry of an index
abbrev pub entry : Bytes → ℕ → Bytes
entry buf i q = buf (32 * i + q)

unfoldable pub dentry_is_valid : Bytes → Bool
dentry_is_valid d =
    (not (d 0 == 0) && not (dentry_get_file_size d == 0)) && not (dentry_get_cluster d == 0)

unfoldable pub dentry_is_deleted : Bytes → Bool
dentry_is_deleted d = d 0 == 0xe5

unfoldable pub dentry_is_vfat_lfn : Bytes → Bool
dentry_is_vfat_lfn d = d 11 == 0xf

-- the bytes from `at` on, with `n` to go
unfoldable pub zero_from : Bytes → ℕ → ℕ → Bool
zero_from d at zero = true
zero_from d at (suc n) =
    let rest = zero_from d (suc at) n in if not (d at == 0) then false else rest

unfoldable pub dentry_is_end_mark : Bytes → Bool
unfolding zero_from
dentry_is_end_mark d = zero_from d 0 32

abbrev pub or_first : Option ℕ → ℕ → Option ℕ
or_first none i = some i
or_first (some s) i = some s

-- From the entry `i`, with `k` more before the end of the sector: the next entry, where `none` is NULL,
-- and `*first_lfn`. The loop moves on before it looks, so it also looks at the entry at the end.
unfoldable pub dentry_next : Bytes → ℕ → ℕ → Option ℕ → Option ℕ × Option ℕ
dentry_next buf zero i first_lfn = (some i, first_lfn)
dentry_next buf (suc k) i first_lfn =
    let d = entry buf (suc i) in
    let after_lfn = dentry_next buf k (suc i) (or_first first_lfn (suc i)) in
    let after_other = dentry_next buf k (suc i) none in
    if dentry_is_vfat_lfn d
    then after_lfn
    else if dentry_is_deleted d
    then after_other
    else if dentry_is_valid d
    then (some (suc i), first_lfn)
    else if dentry_is_end_mark d
    then (none, first_lfn)
    else after_other
