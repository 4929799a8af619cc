-- ===== src/Fat32/Directory/Tests.antt =====
-- A root directory of one sector, with the files A and B and behind them one with the long name "cd".
use arm64_os.Base.{
  ℕ, ◌≡◌, refl, arith, List, [], ◌∷◌, Bool, true, false, Option, none, some, inl, inr, ◌==◌,
  if◌then◌else◌,
}
use arm64_os.Fat32.{
  Bytes, Fat32Fs, sectors_per_cluster, first_sector, data_start_sector, num_reserved_sectors,
  num_fat_sectors, num_fats, sectors_per_fat, root_dir_cluster, logical_sector_size,
  dentry_get_file_size, dentry_get_cluster,
}
use arm64_os.Fat32.Dentry.{
  dentry_is_valid, dentry_is_deleted, dentry_is_vfat_lfn, dentry_is_end_mark, entry,
}
use arm64_os.Fat32.Names.{dentry_get_filename}
use arm64_os.Fat32.Directory.{CompareArg, iterate_sector, find_element, fat32_lookup}
use arm64_os.Fat32.Directory.Scan.{scan, iterate_sector-scan}
use arm64_os.Fat32.Directory.Lookup.{fat32_lookup-slash}

-- the bytes that are not 0, with their offsets
abbrev bytes_of : List (ℕ × ℕ) → Bytes
bytes_of [] at = 0
bytes_of ((offset, byte) ∷ bytes) at = if at == offset then byte else bytes_of bytes at

-- 512 bytes per sector, one sector per cluster, 1 reserved sector, 1 table of 1 sector, the root
-- directory in cluster 2
abbrev boot : Bytes
boot = bytes_of ((12, 2) ∷ (13, 1) ∷ (14, 1) ∷ (16, 1) ∷ (36, 1) ∷ (44, 2) ∷ [])

-- each file has a size and a cluster
abbrev directory : Bytes
directory = bytes_of (
    (0, 0x41)
    ∷ (26, 3)
    ∷ (28, 1)
    ∷ (32, 0x42)
    ∷ (58, 4)
    ∷ (60, 1)
    ∷ (64, 0x41)
    ∷ (65, 0x63)
    ∷ (67, 0x64)
    ∷ (75, 0x0f)
    ∷ (96, 0x43)
    ∷ (122, 5)
    ∷ (124, 1)
    ∷ [])

abbrev volume : Fat32Fs
volume = record {
  boot_sector = boot;
  read = λ sector. if sector == 2 then inr directory else inl 0xffffffff;
}

-- collects what is handed over
abbrev collect : Bytes → ℕ → Option ℕ → List (ℕ × Option ℕ) → Bool × List (ℕ × Option ℕ)
collect buf d le seen = (false, (d, le) ∷ seen)

entries : iterate_sector collect directory 16 [] ≡ (true, (3, some 2) ∷ (1, none) ∷ (0, none) ∷ [])
unfolding iterate_sector dentry_is_vfat_lfn dentry_is_valid dentry_is_deleted dentry_is_end_mark
    dentry_get_file_size dentry_get_cluster
entries = refl

long_name : dentry_get_filename directory 3 (some 2) 128 ≡ (0x63 ∷ 0x64 ∷ [])
unfolding dentry_get_filename
long_name = refl

short_name : dentry_get_filename directory 1 none 128 ≡ (0x42 ∷ [])
unfolding dentry_get_filename
short_name = refl

iterate_sector-scan_example :
    iterate_sector collect directory 16 [] ≡ scan collect directory 16 0 none []
unfolding dentry_is_valid dentry_is_deleted dentry_is_vfat_lfn dentry_get_file_size
    dentry_get_cluster
iterate_sector-scan_example =
    iterate_sector-scan collect directory 16 [] (omega arith) (inr (refl, refl))

abbrev stack : Bytes
stack at = 0xcc

abbrev found_a : CompareArg
found_a = record { found = true; dentry = entry directory 0 }

finds_a : find_element 1 volume (0x41 ∷ []) stack ≡ some (0, found_a)
unfolding find_element sectors_per_cluster first_sector data_start_sector num_reserved_sectors
    num_fat_sectors num_fats sectors_per_fat root_dir_cluster logical_sector_size dentry_is_vfat_lfn
    dentry_is_valid dentry_is_deleted dentry_is_end_mark dentry_get_file_size dentry_get_cluster
finds_a = refl

fat32_lookup-slash_example :
    fat32_lookup 1 volume (0x2f ∷ 0x41 ∷ 0x2f ∷ 0x42 ∷ []) stack stack
    ≡ fat32_lookup 1 volume (0x2f ∷ 0x42 ∷ []) stack (entry directory 0)
fat32_lookup-slash_example =
    fat32_lookup-slash 1 volume (0x41 ∷ []) (0x42 ∷ []) stack stack found_a (ground arith, tt)
      (omega arith) finds_a
