-- ===== src/Mount/Options/Defaults.antt =====
-- The defaults of `apply_defaults` of src/mount/options.rs, which has none for `nfs4`.
use fuji.Base.{
  ◌≡◌, refl, ◌⊎◌, inl, inr, String, true, ◌&&◌, not, arith, Bool-cases, Dict, contains_key, ok,
}
use fuji.Mount.Options.{PerformanceOptions, MountOptions, Parsed}
use fuji.Mount.Options.Parse.{
  default_to, default_unless, default_sizes, default_modes, nfs_defaults, apply_defaults, parse,
}
use fuji.Mount.Options.Consistent.{contains_key-insert, contains_key-insert_self}
use fuji.Mount.Options.Exclusive.{parse-Checked}

-- A default is there, and what was there stays.
default_to-contains :
    (key value : String) (set : PerformanceOptions → PerformanceOptions) (p : Parsed)
    → contains_key key (default_to key value set p).options ≡ true
unfolding default_to
default_to-contains key value set p = elim (Bool-cases (contains_key key p.options)) [
  | inl e ↦ rw e e
  | inr e ↦ rw e (contains_key-insert_self key value p.options)
]

default_to-keeps :
    (j key value : String) (set : PerformanceOptions → PerformanceOptions) (p : Parsed)
    → contains_key j p.options ≡ true
    → contains_key j (default_to key value set p).options ≡ true
unfolding default_to
default_to-keeps j key value set p h = elim (Bool-cases (contains_key key p.options)) [
  | inl e ↦ rw e h
  | inr e ↦ rw e (contains_key-insert key j value p.options h)
]

-- One of two opposites.
abbrev pub HasOne : String → String → Dict String → Type 0
HasOne key opposite m = (contains_key key m ≡ true) ⊎ (contains_key opposite m ≡ true)

default_unless-HasOne :
    (key opposite : String) (set : PerformanceOptions → PerformanceOptions) (p : Parsed)
    → HasOne key opposite (default_unless key opposite set p).options
unfolding default_unless
default_unless-HasOne key opposite set p =
    elim (Bool-cases (not (contains_key key p.options) && not (contains_key opposite p.options))) [
      | inl e ↦ rw e (inl (contains_key-insert_self key "" p.options))
      | inr e ↦ rw e (ground (arith, e))
    ]

default_unless-keeps :
    (j key opposite : String) (set : PerformanceOptions → PerformanceOptions) (p : Parsed)
    → contains_key j p.options ≡ true
    → contains_key j (default_unless key opposite set p).options ≡ true
unfolding default_unless
default_unless-keeps j key opposite set p h =
    elim (Bool-cases (not (contains_key key p.options) && not (contains_key opposite p.options))) [
      | inl e ↦ rw e (contains_key-insert key j "" p.options h)
      | inr e ↦ rw e h
    ]

HasOne-default_to :
    (a b key value : String) (set : PerformanceOptions → PerformanceOptions) (p : Parsed)
    → HasOne a b p.options
    → HasOne a b (default_to key value set p).options
HasOne-default_to a b key value set p h = elim h [
  | inl e ↦ inl (default_to-keeps a key value set p e)
  | inr e ↦ inr (default_to-keeps b key value set p e)
]

HasOne-default_unless :
    (a b key opposite : String) (set : PerformanceOptions → PerformanceOptions) (p : Parsed)
    → HasOne a b p.options
    → HasOne a b (default_unless key opposite set p).options
HasOne-default_unless a b key opposite set p h = elim h [
  | inl e ↦ inl (default_unless-keeps a key opposite set p e)
  | inr e ↦ inr (default_unless-keeps b key opposite set p e)
]

-- The options that every NFS mount is given.
pub record Complete (m : Dict String) : Type 0 where
  pub rsize : contains_key "rsize" m ≡ true
  pub wsize : contains_key "wsize" m ≡ true
  pub timeo : contains_key "timeo" m ≡ true
  pub retrans : contains_key "retrans" m ≡ true
  pub mode : HasOne "hard" "soft" m
  pub interrupts : HasOne "intr" "nointr" m

nfs_defaults-Complete : (p : Parsed) → Complete (nfs_defaults p).options
unfolding nfs_defaults default_sizes default_modes
nfs_defaults-Complete p = record {
  rsize =
      default_to-keeps _ _ _ _ _ (
        default_to-keeps _ _ _ _ _
          (default_to-keeps _ _ _ _ _ (default_to-contains "rsize" _ _ _)));
  wsize =
      default_to-keeps _ _ _ _ _ (default_to-keeps _ _ _ _ _ (default_to-contains "wsize" _ _ _));
  timeo = default_to-keeps _ _ _ _ _ (default_to-contains "timeo" _ _ _);
  retrans = default_to-contains "retrans" _ _ _;
  mode = HasOne-default_to _ _ _ _ _ _ (
      HasOne-default_to _ _ _ _ _ _ (
        HasOne-default_to _ _ _ _ _ _ (
          HasOne-default_to _ _ _ _ _ _
            (HasOne-default_unless _ _ _ _ _ _ (default_unless-HasOne "hard" "soft" _ p)))));
  interrupts = HasOne-default_to _ _ _ _ _ _ (
      HasOne-default_to _ _ _ _ _ _ (
        HasOne-default_to _ _ _ _ _ _
          (HasOne-default_to _ _ _ _ _ _ (default_unless-HasOne "intr" "nointr" _ _))));
}

apply_defaults-nfs : (p : Parsed) → apply_defaults "nfs" p ≡ nfs_defaults p
unfolding apply_defaults
apply_defaults-nfs p = refl

-- Options that are accepted when the given file system type is the text `nfs` name both sizes, the
-- timeout and the retransmissions, one of `hard` and `soft`, and one of `intr` and `nointr`,
-- whichever of these were given.
pub parse-nfs_defaults :
    (options_str : String) (o : MountOptions) → parse options_str "nfs" ≡ ok o → Complete o.options
parse-nfs_defaults options_str o h =
    let c = parse-Checked options_str "nfs" o h in
    rw (c.options, apply_defaults-nfs c.parsed) (nfs_defaults-Complete c.parsed)
