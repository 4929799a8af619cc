-- ===== src/Fat32/Directory.antt =====
-- fs/fat32/fat32.c: the walk over a directory and the lookup of a path. A path is its bytes. A status
-- is the bit pattern of an `int`; `none` is that the fuel for the chain of clusters has run out, or that
-- a name does not fit into its buffer.
pub mod Scan
pub mod Lookup
mod Tests
use arm64_os.Base.{
  ℕ, zero, suc, ◌+◌, ◌-◌, ◌*◌, ◌/◌, List, [], ◌∷◌, length, Bool, true, false, Option, none, some,
  leb, ◌==◌, not, ◌&&◌, ◌⊎◌, inl, inr, if◌then◌else◌, ◌>>=◌,
}
use arm64_os.Fat32.{
  Bytes, Fat32Fs, root_dir_cluster, logical_sector_size, sectors_per_cluster, ClusterIt,
  cluster_it_init, cluster_it_next, first_sector,
}
use arm64_os.Fat32.Dentry.{entry, dentry_is_valid, dentry_is_vfat_lfn, dentry_next}
use arm64_os.Fat32.Names.{dentry_get_filename}

-- `cb` gets the sector, the index of an entry in it and that of its first long-name entry; it says
-- whether to stop, and acts on a state.
module _ {S : Type 0} (cb : Bytes → ℕ → Option ℕ → S → Bool × S) where
  -- what follows a call of `cb` or a search
  abbrev pub unless_stopped : Bool × S → (S → Bool × S) → Bool × S
  unless_stopped r more = let rest = more r.1 in if r.0 then (true, r.1) else rest

  -- what is done with a result of `dentry_next`
  abbrev pub after_next :
      Bytes → ℕ → (ℕ → Option ℕ → S → Bool × S) → S → Option ℕ × Option ℕ → Bool × S
  after_next buf end more st (none, first_le) = (true, st)
  after_next buf end more st (some d, first_le) =
      let rest = unless_stopped (cb buf d first_le st) (more d none) in
      if d == end then (false, st) else rest

  -- The `while` loop; `true` is that the whole walk is over. One round per entry is enough fuel.
  unfoldable pub entries_loop : ℕ → Bytes → ℕ → ℕ → Option ℕ → S → Bool × S
  unfolding dentry_next
  entries_loop zero buf end d first_le st = (true, st)
  entries_loop (suc fuel) buf end d first_le st =
      after_next buf end (entries_loop fuel buf end) st (dentry_next buf (end - d) d first_le)

  -- one sector of `end` entries
  unfoldable pub iterate_sector : Bytes → ℕ → S → Bool × S
  unfolding entries_loop
  iterate_sector buf end st =
      if dentry_is_vfat_lfn (entry buf 0)
      then entries_loop (suc end) buf end 0 (some 0) st
      else unless_stopped (if dentry_is_valid (entry buf 0) then cb buf 0 none st else (false, st))
          (entries_loop (suc end) buf end 0 none)

  -- The sectors of a cluster; the status is there when the walk is over.
  unfoldable pub directory_sectors : Fat32Fs → ℕ → ℕ → S → Option ℕ × S
  unfolding iterate_sector
  directory_sectors f sector zero st = (none, st)
  directory_sectors f sector (suc n) st = elim (f.read sector) [
    | inl err ↦ (some err, st)
    | inr buf ↦
        let (stop, st') = iterate_sector buf (logical_sector_size f / 32) st in
        let rest = directory_sectors f (suc sector) n st' in if stop then (some 0, st') else rest
  ]

  unfoldable pub directory_clusters : ℕ → Fat32Fs → ClusterIt → S → Option (ℕ × S)
  unfolding directory_sectors
  directory_clusters zero f ci st = none
  directory_clusters (suc fuel) f ci st =
      let (status, st') =
        directory_sectors f (first_sector f ci.cluster_idx) (sectors_per_cluster f) st in
      let rest = directory_clusters fuel f (cluster_it_next f ci) st' in
      if not ci.valid
      then some (0, st)
      else elim status [ some err ↦ some (err, st') | none ↦ rest ]

  unfoldable pub iterate_directory : ℕ → Fat32Fs → ℕ → S → Option (ℕ × S)
  unfolding directory_clusters
  iterate_directory fuel f dir_start_cluster st =
      directory_clusters fuel f (cluster_it_init dir_start_cluster) st

abbrev pub list_eq : List ℕ → List ℕ → Bool
list_eq [] [] = true
list_eq [] (y ∷ ys) = false
list_eq (x ∷ xs) [] = false
list_eq (x ∷ xs) (y ∷ ys) = (x == y) && list_eq xs ys

-- `err` is ERR_OK exactly if `found`.
pub record CompareArg : Type 0 where
  pub found : Bool
  pub dentry : Bytes

unfoldable pub compare_filename_cb : List ℕ → Bytes → ℕ → Option ℕ → CompareArg → Bool × CompareArg
unfolding dentry_get_filename
compare_filename_cb filename buf d le arg =
    if list_eq (dentry_get_filename buf d le 128) filename
    then (true, record { found = true; dentry = entry buf d })
    else (false, arg)

-- up to the first slash or the end, and what is left from there on
unfoldable pub filepath_get_next_element : List ℕ → List ℕ × List ℕ
filepath_get_next_element [] = ([], [])
filepath_get_next_element (c ∷ cs) =
    let (element, rest) = filepath_get_next_element cs in
    if (c == 0x2f) then ([], c ∷ cs) else (c ∷ element, rest)

abbrev pub skip_slash : List ℕ → List ℕ
skip_slash [] = []
skip_slash (c ∷ cs) = if c == 0x2f then cs else c ∷ cs

-- the search for one element, which is always in the root directory
unfoldable pub find_element : ℕ → Fat32Fs → List ℕ → Bytes → Option (ℕ × CompareArg)
unfolding iterate_directory compare_filename_cb
find_element fuel f name dentry =
    if leb 128 (length name)
    then none
    else iterate_directory (compare_filename_cb name) fuel f (root_dir_cluster f)
        (record { found = false; dentry = dentry })

-- Where a name is not found, the status is that of the walk.
abbrev pub after_element :
    Bytes → (Bytes → Option (ℕ × Bytes)) → ℕ × CompareArg → Option (ℕ × Bytes)
after_element out more (err, arg) =
    let rest = more arg.dentry in
    if not (err == 0) then some (err, out) else if not arg.found then some (err, out) else rest

-- the loop over the elements of a path, with what is in `arg.dentry`
unfoldable pub lookup_loop : ℕ → ℕ → Fat32Fs → List ℕ → Bytes → Bytes → Option (ℕ × Bytes)
unfolding find_element filepath_get_next_element
lookup_loop zero fuel f path out dentry = none
lookup_loop (suc n) fuel f path out dentry =
    let (name, rest) = filepath_get_next_element path in
    let more =
      find_element fuel f name dentry
      >>= after_element out (lookup_loop n fuel f (skip_slash rest) out) in
    if length name == 0 then some (0, dentry) else more

-- `-1`
abbrev pub minus_one : ℕ
minus_one = 0xffffffff

-- The status and `*out_dentry`, which was `out`; `arg.dentry` is `stack` at first.
unfoldable pub fat32_lookup : ℕ → Fat32Fs → List ℕ → Bytes → Bytes → Option (ℕ × Bytes)
unfolding lookup_loop
fat32_lookup fuel f [] out stack = some (minus_one, out)
fat32_lookup fuel f (c ∷ path) out stack =
    let found = lookup_loop (suc (length path)) fuel f path out stack in
    if c == 0x2f then found else some (minus_one, out)
