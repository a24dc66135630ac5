-- ===== src/Mount/Options/Bounds.antt =====
-- The sizes and times that `parse` of src/mount/options.rs accepts for NFS and SMB. The checks are
-- made for the types `nfs` and `cifs` as they are given, not for `nfs4` and `smbfs`, and the version
-- is checked in the field `nfsvers`, not in the field `vers`.
use fuji.Base.{
  ℕ, ◌≤◌, ◌≡◌, String, false, ◌&&◌, not, Option, none, some, arith, ltb, leb, str_eq, if◌then◌else◌,
  ok, seq-ok, bail_if-ok,
}
use fuji.Mount.Options.{PerformanceOptions, MountOptions, Parsed}
use fuji.Mount.Options.Parse.{on_some, validate_sizes, validate_nfs, validate_options, parse}
use fuji.Mount.Options.Exclusive.{parse-Checked}

-- A number that is given is within the bounds.
abbrev pub InRange : ℕ → ℕ → Option ℕ → Type 0
InRange low high none = Unit
InRange low high (some n) = (low ≤ n) × (n ≤ high)

at_least :
    (low high : ℕ) (o : Option ℕ)
    → on_some o (λ n. ltb n low) ≡ false
    → on_some o (λ n. ltb high n) ≡ false
    → InRange low high o
at_least low high none h k = tt
at_least low high (some n) h k = (ground arith, ground arith)

within :
    (low high : ℕ) (o : Option ℕ)
    → on_some o (λ n. not (leb low n && leb n high)) ≡ false
    → InRange low high o
within low high none h = tt
within low high (some n) h = (ground arith, ground arith)

-- Both sizes are between a kibibyte and a hundred mebibytes.
abbrev pub SizesInRange : PerformanceOptions → Type 0
SizesInRange o = InRange 1024 104_857_600 o.rsize × InRange 1024 104_857_600 o.wsize

sizes_checked : (o : PerformanceOptions) → validate_sizes o ≡ ok tt → SizesInRange o
unfolding validate_sizes
sizes_checked o h =
    let (three, d) = seq-ok _ _ tt h in
    let (two, c) = seq-ok _ _ tt three in
    let (a, b) = seq-ok _ _ tt two in
    (
      at_least 1024 104_857_600 o.rsize (bail_if-ok _ _ a) (bail_if-ok _ _ b),
      at_least 1024 104_857_600 o.wsize (bail_if-ok _ _ c) (bail_if-ok _ _ d),
    )

nfs_checked :
    (o : PerformanceOptions)
    → validate_nfs o ≡ ok tt
    → SizesInRange o × InRange 3 4 o.nfsvers × InRange 1 3600 o.timeo
unfolding validate_nfs
nfs_checked o h =
    let (two, c) = seq-ok _ _ tt h in
    let (a, b) = seq-ok _ _ tt two in
    (
      sizes_checked o b,
      within 3 4 o.nfsvers (bail_if-ok _ _ a),
      within 1 3600 o.timeo (bail_if-ok _ _ c),
    )

-- The checks of the two file systems that have some.
validate_options-by_type :
    (p : Parsed) (fs_type : String)
    → validate_options p fs_type ≡ ok tt
    → ((if str_eq fs_type "nfs" then validate_nfs p.performance else ok tt) ≡ ok tt)
      × ((if str_eq fs_type "cifs" then validate_sizes p.performance else ok tt) ≡ ok tt)
unfolding validate_options
validate_options-by_type p fs_type h =
    let (first, cifs) = seq-ok _ _ tt h in ((seq-ok _ _ tt first).1, cifs)

-- Options that are accepted when the given file system type is the text `nfs` have read and write
-- sizes between 1024 and 104857600 bytes, an `nfsvers` of 3 or 4 and a timeout of 1 to 3600,
-- wherever one of these fields is set.
pub parse-nfs_bounds :
    (options_str : String) (o : MountOptions)
    → parse options_str "nfs" ≡ ok o
    → SizesInRange o.performance
      × InRange 3 4 o.performance.nfsvers
      × InRange 1 3600 o.performance.timeo
parse-nfs_bounds options_str o h =
    let c = parse-Checked options_str "nfs" o h in
    rw c.performance (nfs_checked _ (validate_options-by_type _ "nfs" c.valid).0)

-- SMB options that are accepted under the name `cifs` have read and write sizes between 1024 and
-- 104857600 bytes, wherever one is set.
parse-cifs_bounds :
    (options_str : String) (o : MountOptions)
    → parse options_str "cifs" ≡ ok o
    → SizesInRange o.performance
parse-cifs_bounds options_str o h =
    let c = parse-Checked options_str "cifs" o h in
    rw c.performance (sizes_checked _ (validate_options-by_type _ "cifs" c.valid).1)
