-- ===== src/Fat32/Tests.antt =====
-- A volume with two sectors per cluster, where a file of 1100 bytes starts at cluster 2 and goes on at
-- cluster 5.
use arm64_os.Base.{◌<◌, ◌≡◌, refl, arith, [], ◌∷◌, take, some, inl, inr, ◌==◌, if◌then◌else◌}
use arm64_os.Fat32.{
  Fat32Fs, Bytes, cluster_it_init, cluster_it_next, get_next_cluster_num, entry_in, first_sector,
  sectors_per_cluster, sectors_per_fat, logical_sector_size, num_reserved_sectors,
  data_start_sector, num_fat_sectors, num_fats, dentry_get_cluster, dentry_get_file_size,
  iterate_file_sectors, file_clusters, cluster_sectors,
}
use arm64_os.Base.{none}
use arm64_os.Fat32.Dentry.{dentry_next, dentry_is_vfat_lfn, dentry_is_deleted, dentry_is_valid}
use arm64_os.Fat32.Sectors.{record_sector, chain_sectors, size_in_sectors, iterate_file_sectors-eq}

-- 512 bytes per sector, 32 reserved sectors, 2 tables of 100 sectors
abbrev boot : Bytes
boot at =
    if at == 12
    then 2
    else if at == 13
    then 2
    else if at == 14
    then 32
    else if at == 16
    then 2
    else if at == 36
    then 100
    else if at == 44
    then 2
    else 0

-- the entry of cluster 2 is 5, and that of cluster 5 ends a chain
abbrev table : Bytes
table at =
    if at == 8
    then 5
    else if at == 20
    then 0xff
    else if at == 21
    then 0xff
    else if at == 22
    then 0xff
    else if at == 23
    then 0xf
    else 0

abbrev volume : Fat32Fs
volume = record {
  boot_sector = boot;
  read = λ sector. if sector == 32 then inr table else inl 0xffffffff;
}

abbrev file : Bytes
file at = if at == 26 then 2 else if at == 28 then 0x4c else if at == 29 then 4 else 0

file_sectors : iterate_file_sectors record_sector volume file [] ≡ some (232 ∷ 233 ∷ 238 ∷ [])
unfolding iterate_file_sectors file_clusters cluster_sectors first_sector cluster_it_next
    get_next_cluster_num entry_in sectors_per_cluster sectors_per_fat logical_sector_size
    num_reserved_sectors data_start_sector num_fat_sectors num_fats dentry_get_cluster
    dentry_get_file_size
file_sectors = refl

one_cluster_size : 0 < sectors_per_cluster volume
unfolding sectors_per_cluster
one_cluster_size = omega arith

iterate_file_sectors-eq_example :
    iterate_file_sectors record_sector volume file []
    ≡ some (
        take (size_in_sectors volume file) (
          chain_sectors volume
            (size_in_sectors volume file)
            (cluster_it_init (dentry_get_cluster file))))
iterate_file_sectors-eq_example = iterate_file_sectors-eq volume file one_cluster_size

-- A sector whose entry 1 is of a long name, and whose entry 2 is the file that has it.
abbrev sector : Bytes
sector at =
    if at == 43
    then 0xf
    else if at == 64
    then 0x41
    else if at == 90
    then 3
    else if at == 92
    then 5
    else 0

long_name : dentry_next sector 15 0 none ≡ (some 2, some 1)
unfolding dentry_next dentry_is_vfat_lfn dentry_is_deleted dentry_is_valid dentry_get_cluster
    dentry_get_file_size
long_name = refl
