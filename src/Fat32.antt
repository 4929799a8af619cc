-- ===== src/Fat32.antt =====
-- fs/fat32/fat32.c with include/fs/fat32.h and include/mem_access.h: the geometry of a volume, the
-- chain of clusters, and the walk over the sectors of a file. The block device is the parameter
-- `read`, which gives the bytes of a sector, or an error by its bit pattern. Numbers are `uint32_t`
-- unless a comment says otherwise.
pub mod Lists
pub mod Sectors
pub mod Dentry
pub mod Names
pub mod Directory
mod Tests
use arm64_os.Base.{
  ℕ, zero, suc, ◌+◌, ◌-◌, ◌*◌, ◌/◌, ◌%◌, ◌^◌, Bool, true, false, Option, none, some, ltb, ◌==◌, not,
  ◌||◌, ◌⊎◌, inl, inr, if◌then◌else◌,
}

-- the bytes of a buffer, each below 256
abbrev pub Bytes : Type 0
Bytes = ℕ → ℕ

abbrev pub get_unaligned_16_le : Bytes → ℕ → ℕ
get_unaligned_16_le b at = b (at + 1) * 2 ^ 8 + b at

abbrev pub get_unaligned_32_le : Bytes → ℕ → ℕ
get_unaligned_32_le b at = b (at + 3) * 2 ^ 24 + b (at + 2) * 2 ^ 16 + b (at + 1) * 2 ^ 8 + b at

-- `struct fat32_fs` by the bytes of its boot sector; the field offsets are those of the packed struct
pub record Fat32Fs : Type 0 where
  pub boot_sector : Bytes
  pub read : ℕ → ℕ ⊎ Bytes

-- `uint16_t`
unfoldable pub num_reserved_sectors : Fat32Fs → ℕ
num_reserved_sectors f = get_unaligned_16_le f.boot_sector 14

unfoldable pub root_dir_cluster : Fat32Fs → ℕ
root_dir_cluster f = get_unaligned_32_le f.boot_sector 44

unfoldable pub logical_sector_size : Fat32Fs → ℕ
logical_sector_size f = get_unaligned_16_le f.boot_sector 11

unfoldable pub sectors_per_cluster : Fat32Fs → ℕ
sectors_per_cluster f = f.boot_sector 13

-- The field has 32 bits, of which 16 are read.
unfoldable pub sectors_per_fat : Fat32Fs → ℕ
sectors_per_fat f = get_unaligned_16_le f.boot_sector 36

unfoldable pub num_fats : Fat32Fs → ℕ
num_fats f = f.boot_sector 16

unfoldable pub num_fat_sectors : Fat32Fs → ℕ
num_fat_sectors f = num_fats f * sectors_per_fat f

unfoldable pub data_start_sector : Fat32Fs → ℕ
data_start_sector f = num_reserved_sectors f + num_fat_sectors f

abbrev pub entry_end_of_chain : ℕ
entry_end_of_chain = 0x0fffffff

abbrev pub entry_end_of_chain_alt : ℕ
entry_end_of_chain_alt = 0x0ffffff8

-- An error of the read is returned as a cluster.
unfoldable pub entry_in : ℕ → ℕ ⊎ Bytes → ℕ
entry_in offset_in_sector (inl err) = err
entry_in offset_in_sector (inr fatbuf) = get_unaligned_32_le fatbuf (4 * offset_in_sector)

unfoldable pub get_next_cluster_num : Fat32Fs → ℕ → ℕ
get_next_cluster_num f cluster_idx =
    let entries_per_sector = logical_sector_size f / 2 ^ 2 in
    let entry_sector = (num_reserved_sectors f + cluster_idx / entries_per_sector) % 2 ^ 32 in
    if ltb (sectors_per_fat f) entry_sector
    then entry_end_of_chain
    else entry_in (cluster_idx % entries_per_sector) (f.read entry_sector)

pub record ClusterIt : Type 0 where
  pub cluster_idx : ℕ
  pub valid : Bool

abbrev pub cluster_it_init : ℕ → ClusterIt
cluster_it_init start_cluster = record { cluster_idx = start_cluster; valid = true }

unfoldable pub cluster_it_next : Fat32Fs → ClusterIt → ClusterIt
cluster_it_next f ci =
    let next = get_next_cluster_num f ci.cluster_idx in
    if (next == entry_end_of_chain) || (next == entry_end_of_chain_alt)
    then record { cluster_idx = next; valid = false }
    else record ci { cluster_idx = next }

-- `csi->sector_idx` of `cl_sector_iter_init`, a `uint64_t` sum of two numbers of 32 bits
unfoldable pub first_sector : Fat32Fs → ℕ → ℕ
first_sector f cluster_idx =
    data_start_sector f % 2 ^ 32
    + (cluster_idx + 2 ^ 32 - 2) % 2 ^ 32 * sectors_per_cluster f % 2 ^ 32

-- a directory entry by its bytes
unfoldable pub dentry_get_cluster : Bytes → ℕ
dentry_get_cluster d = get_unaligned_16_le d 20 * 2 ^ 16 + get_unaligned_16_le d 26

unfoldable pub dentry_get_file_size : Bytes → ℕ
dentry_get_file_size d = get_unaligned_32_le d 28

-- `cb` says whether to stop; it gets the cluster and the sector, and acts on a state.
module _ {S : Type 0} (cb : ℕ → ℕ → S → Bool × S) where
  -- the inner loop, over the `n` sectors from `sector_idx`
  unfoldable pub cluster_sectors : ℕ → ℕ → ℕ → S → Bool × S
  cluster_sectors cluster_idx sector_idx zero st = (false, st)
  cluster_sectors cluster_idx sector_idx (suc n) st =
      let (stop, st') = cb cluster_idx sector_idx st in
      let rest = cluster_sectors cluster_idx (suc sector_idx) n st' in
      if stop then (true, st') else rest

  -- the outer loop; `none` is that the fuel has run out
  unfoldable pub file_clusters : Fat32Fs → ℕ → ClusterIt → ℕ → S → Option S
  file_clusters f zero ci size_sectors st = none
  file_clusters f (suc fuel) ci size_sectors st =
      let num_sectors =
        if ltb (sectors_per_cluster f) size_sectors then sectors_per_cluster f else size_sectors in
      let (stop, st') =
        cluster_sectors ci.cluster_idx (first_sector f ci.cluster_idx) num_sectors st in
      let rest = file_clusters f fuel (cluster_it_next f ci) (size_sectors - num_sectors) st' in
      if (size_sectors == 0) || not ci.valid then some st else if stop then some st' else rest

  -- The number of sectors is computed in 32 bits. One round per sector is enough fuel.
  unfoldable pub iterate_file_sectors : Fat32Fs → Bytes → S → Option S
  iterate_file_sectors f d st =
      let sector_size = logical_sector_size f in
      let size_sectors =
        (dentry_get_file_size d + sector_size + 2 ^ 32 - 1) % 2 ^ 32 / sector_size in
      file_clusters f (suc size_sectors) (cluster_it_init (dentry_get_cluster d)) size_sectors st
