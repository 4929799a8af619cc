-- ===== src/Fat32/Sectors.antt =====
-- The sectors of a file: the walk against the concatenation of the clusters of its chain.
use arm64_os.Base.{
  ℕ, zero, suc, ◌+◌, ◌-◌, ◌*◌, ◌/◌, ◌%◌, ◌^◌, ◌≤◌, ◌<◌, ◌≡◌, refl, arith, List, [], ◌∷◌, ◌++◌, take,
  Bool, true, false, some, ltb, ◌==◌, not, ◌||◌, if◌then◌else◌, ◌∙◌, ap, sym, append-nil,
  append_assoc, Bool-cases, inl, inr,
}
use arm64_os.Fat32.{
  Fat32Fs, Bytes, ClusterIt, cluster_it_init, cluster_it_next, first_sector, sectors_per_cluster,
  logical_sector_size, dentry_get_cluster, dentry_get_file_size, cluster_sectors, file_clusters,
  iterate_file_sectors,
}
use arm64_os.Fat32.Lists.{up_from, length-up_from, take_past, take-up_from}

-- the callback that records the sectors and never stops
abbrev pub record_sector : ℕ → ℕ → List ℕ → Bool × List ℕ
record_sector cluster sector seen = (false, seen ++ (sector ∷ []))

-- all sectors of the first `n` clusters of a chain
abbrev pub chain_sectors : Fat32Fs → ℕ → ClusterIt → List ℕ
chain_sectors f zero ci = []
chain_sectors f (suc n) ci =
    let rest = chain_sectors f n (cluster_it_next f ci) in
    if ci.valid then up_from (first_sector f ci.cluster_idx) (sectors_per_cluster f) ++ rest else []

-- the number of sectors that a size in bytes takes, in 32 bits
abbrev pub size_in_sectors : Fat32Fs → Bytes → ℕ
size_in_sectors f d =
    (dentry_get_file_size d + logical_sector_size f + 2 ^ 32 - 1) % 2 ^ 32 / logical_sector_size f

cluster_sectors-eq :
    (c s n : ℕ) (seen : List ℕ)
    → cluster_sectors record_sector c s n seen ≡ (false, seen ++ up_from s n)
unfolding cluster_sectors
cluster_sectors-eq c s zero seen = ap (λ xs. (false, xs)) (sym (append-nil seen))
cluster_sectors-eq c s (suc n) seen =
    cluster_sectors-eq c (suc s) n (seen ++ (s ∷ []))
    ∙ ap (λ xs. (false, xs)) (append_assoc seen (s ∷ []) (up_from (suc s) n))

-- the number of sectors of one round
abbrev round_of : Fat32Fs → ℕ → ℕ
round_of f n = if ltb (sectors_per_cluster f) n then sectors_per_cluster f else n

file_clusters_round :
    (f : Fat32Fs) (fuel : ℕ) (ci : ClusterIt) (size : ℕ) (seen : List ℕ)
    → ci.valid ≡ true
    → file_clusters record_sector f (suc fuel) ci (suc size) seen
      ≡ file_clusters record_sector f fuel
          (cluster_it_next f ci)
          (suc size - round_of f (suc size))
          (seen ++ up_from (first_sector f ci.cluster_idx) (round_of f (suc size)))
unfolding file_clusters
file_clusters_round f fuel ci size seen goes =
    let more : ((suc size == 0) || not ci.valid) ≡ false = ground arith in
    rw
      (
        more,
        cluster_sectors-eq ci.cluster_idx (first_sector f ci.cluster_idx) (round_of f (suc size))
            seen,
      )
      refl

file_clusters_end :
    (f : Fat32Fs) (fuel k : ℕ) (ci : ClusterIt) (size : ℕ) (seen : List ℕ)
    → ci.valid ≡ false
    → file_clusters record_sector f (suc fuel) ci (suc size) seen
      ≡ some (seen ++ take (suc size) (chain_sectors f (suc k) ci))
unfolding file_clusters
file_clusters_end f fuel k ci size seen ended =
    let no_more : ((suc size == 0) || not ci.valid) ≡ true = ground arith in
    let nothing : chain_sectors f (suc k) ci ≡ [] = ground arith in
    rw (no_more, nothing) (ap some (sym (append-nil seen)))

chain_step :
    (f : Fat32Fs) (k : ℕ) (ci : ClusterIt)
    → ci.valid ≡ true
    → chain_sectors f (suc k) ci
      ≡ up_from (first_sector f ci.cluster_idx) (sectors_per_cluster f)
        ++ chain_sectors f k (cluster_it_next f ci)
chain_step f k ci goes = ground arith

file_clusters-eq :
    (f : Fat32Fs) (fuel k : ℕ) (ci : ClusterIt) (size : ℕ) (seen : List ℕ)
    → 0 < sectors_per_cluster f
    → size < fuel
    → size ≤ k
    → file_clusters record_sector f fuel ci size seen
      ≡ some (seen ++ take size (chain_sectors f k ci))
unfolding file_clusters
file_clusters-eq f zero k ci size seen pos enough le = absurd (omega arith)
file_clusters-eq f (suc fuel) k ci zero seen pos enough le = ap some (sym (append-nil seen))
file_clusters-eq f (suc fuel) zero ci (suc size) seen pos enough le = absurd (omega arith)
file_clusters-eq f (suc fuel) (suc k) ci (suc size) seen pos enough le =
    let start = first_sector f ci.cluster_idx in
    let spc = sectors_per_cluster f in
    let next = cluster_it_next f ci in
    elim (Bool-cases ci.valid) [
      | inr ended ↦ file_clusters_end f fuel k ci size seen ended
      | inl goes ↦ elim (Bool-cases (ltb spc (suc size))) [
        | inl long ↦
            let whole : round_of f (suc size) ≡ spc = ground arith in
            let lt : spc < suc size = ground arith in
            file_clusters_round f fuel ci size seen goes
            ∙ ap
                (λ r.
                  file_clusters record_sector f fuel next (suc size - r) (seen ++ up_from start r))
                whole
            ∙ file_clusters-eq f fuel k next (suc size - spc) (seen ++ up_from start spc) pos
                (omega arith) (omega arith)
            ∙ ap some (
                append_assoc seen (up_from start spc) _
                ∙ ap (λ xs. seen ++ xs)
                    (sym (
                        take_past (suc size) spc (up_from start spc) (chain_sectors f k next)
                          (length-up_from start spc) (omega arith))
                      ∙ ap (take (suc size)) (sym (chain_step f k ci goes))))
        | inr short ↦
            let part : round_of f (suc size) ≡ suc size = ground arith in
            let ge : suc size ≤ spc = ground arith in
            let none_left : suc size - suc size ≡ 0 = omega arith in
            file_clusters_round f fuel ci size seen goes
            ∙ ap
                (λ r.
                  file_clusters record_sector f fuel next (suc size - r) (seen ++ up_from start r))
                part
            ∙ ap (λ n. file_clusters record_sector f fuel next n (seen ++ up_from start (suc size)))
                none_left
            ∙ file_clusters-eq f fuel 0 next 0 (seen ++ up_from start (suc size)) pos (omega arith)
                (omega arith)
            ∙ ap some (
                append-nil _
                ∙ ap (λ xs. seen ++ xs)
                    (sym (take-up_from (suc size) spc start (chain_sectors f k next) ge)
                      ∙ ap (take (suc size)) (sym (chain_step f k ci goes))))
      ]
    ]

-- On a volume with a positive number of sectors per cluster, the walk over the sectors of a file ends
-- for every table of clusters, cyclic ones included. It visits, in order, the sectors of the clusters
-- of the chain of the file, cut off after as many as the size of the file takes.
pub iterate_file_sectors-eq :
    (f : Fat32Fs) (d : Bytes)
    → 0 < sectors_per_cluster f
    → iterate_file_sectors record_sector f d []
      ≡ some (
          take
            (size_in_sectors f d)
            (chain_sectors f (size_in_sectors f d) (cluster_it_init (dentry_get_cluster d))))
unfolding iterate_file_sectors
iterate_file_sectors-eq f d pos =
    file_clusters-eq f (suc (size_in_sectors f d)) (size_in_sectors f d)
      (cluster_it_init (dentry_get_cluster d)) (size_in_sectors f d) [] pos (omega arith)
      (omega arith)

cluster_room : (a b spc : ℕ) → a < b → a * spc + spc ≤ b * spc
cluster_room a b spc lt = grind arith

-- Different clusters lie on different sectors: those of the cluster with the smaller number come
-- before, as long as the area of data has less than 2^32 sectors.
pub first_sector_apart :
    (f : Fat32Fs) (c c' : ℕ)
    → 2 ≤ c
    → c < c'
    → (c' - 2) * sectors_per_cluster f < 2 ^ 32
    → c' < 2 ^ 32
    → first_sector f c + sectors_per_cluster f ≤ first_sector f c'
unfolding first_sector
first_sector_apart f c c' lo lt small small' =
    let room = cluster_room (c - 2) (c' - 2) (sectors_per_cluster f) (omega arith) in
    let at_c : (c + 2 ^ 32 - 2) % 2 ^ 32 ≡ c - 2 = omega arith in
    let at_c' : (c' + 2 ^ 32 - 2) % 2 ^ 32 ≡ c' - 2 = omega arith in
    rw (at_c, at_c') (omega (arith, room))
