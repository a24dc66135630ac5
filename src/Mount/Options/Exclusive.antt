-- ===== src/Mount/Options/Exclusive.antt =====
-- The options that exclude each other, in what `parse` of src/mount/options.rs returns.
use fuji.Base.{
  ◌≡◌, refl, ◌⊎◌, inl, inr, String, true, false, ◌&&◌, ◌||◌, List, arith, str_eq, not, Bool-cases,
  ok, Result-cases, Holds, bind-Holds, seq-ok, bail_if-ok, contains_key,
}
use fuji.Mount.Options.{PerformanceOptions, MountOptions, conflicting_ro_rw, Parsed}
use fuji.Mount.Options.Parse.{
  process_all, default_to, default_unless, default_sizes, default_modes, default_rw, nfs_defaults,
  cifs_defaults, sshfs_defaults, apply_defaults, validate_options, start, raw_options, finish,
  parse,
}
use fuji.Mount.Options.Consistent.{
  Consistent, store-Consistent, frame-Consistent, process_all-Consistent,
}

default_to-Consistent :
    (key value : String) (set : PerformanceOptions → PerformanceOptions) (p : Parsed)
    → Consistent p
    → Consistent (default_to key value set p)
unfolding default_to
default_to-Consistent key value set p h = elim (Bool-cases (contains_key key p.options)) [
  | inl e ↦ rw e h
  | inr e ↦ rw e (store-Consistent key value _ (frame-Consistent p _ refl refl refl refl h))
]

default_unless-Consistent :
    (key opposite : String) (set : PerformanceOptions → PerformanceOptions) (p : Parsed)
    → Consistent p
    → Consistent (default_unless key opposite set p)
unfolding default_unless
default_unless-Consistent key opposite set p h =
    elim (Bool-cases (not (contains_key key p.options) && not (contains_key opposite p.options))) [
      | inl e ↦ rw e (store-Consistent key "" _ (frame-Consistent p _ refl refl refl refl h))
      | inr e ↦ rw e h
    ]

default_sizes-Consistent : (p : Parsed) → Consistent p → Consistent (default_sizes p)
unfolding default_sizes
default_sizes-Consistent p h = default_to-Consistent _ _ _ _ (default_to-Consistent _ _ _ p h)

nfs_defaults-Consistent : (p : Parsed) → Consistent p → Consistent (nfs_defaults p)
unfolding nfs_defaults default_modes
nfs_defaults-Consistent p h = default_to-Consistent _ _ _ _ (
    default_to-Consistent _ _ _ _ (
      default_sizes-Consistent _
        (default_unless-Consistent _ _ _ _ (default_unless-Consistent _ _ _ p h))))

cifs_defaults-Consistent : (p : Parsed) → Consistent p → Consistent (cifs_defaults p)
unfolding cifs_defaults default_rw
cifs_defaults-Consistent p h =
    default_sizes-Consistent _
      (elim (Bool-cases (not (contains_key "rw" p.options) && not (contains_key "ro" p.options))) [
        | inl e ↦
            rw e (store-Consistent "rw" "" _ (record { asked = inl refl; exclusive = h.exclusive }))
        | inr e ↦ rw e h
      ])

sshfs_defaults-Consistent : (p : Parsed) → Consistent p → Consistent (sshfs_defaults p)
unfolding sshfs_defaults
sshfs_defaults-Consistent p h = default_to-Consistent _ _ _ _ (default_to-Consistent _ _ _ p h)

apply_defaults-Consistent :
    (fs_type : String) (p : Parsed) → Consistent p → Consistent (apply_defaults fs_type p)
unfolding apply_defaults
apply_defaults-Consistent fs_type p h = elim (Bool-cases (str_eq fs_type "nfs")) [
  | inl e ↦ rw e (nfs_defaults-Consistent p h)
  | inr e ↦ elim (Bool-cases (str_eq fs_type "cifs" || str_eq fs_type "smbfs")) [
    | inl f ↦ rw (e, f) (cifs_defaults-Consistent p h)
    | inr f ↦ elim (Bool-cases (str_eq fs_type "sshfs")) [
      | inl g ↦ rw (e, f, g) (sshfs_defaults-Consistent p h)
      | inr g ↦ rw (e, f, g) h
    ]
  ]
]

-- What was parsed, given its defaults and checked.
pub record Checked (fs_type : String) (o : MountOptions) : Type 0 where
  pub parsed : Parsed
  pub consistent : Consistent (apply_defaults fs_type parsed)
  pub valid : validate_options (apply_defaults fs_type parsed) fs_type ≡ ok tt
  pub options : o.options ≡ (apply_defaults fs_type parsed).options
  pub security : o.security ≡ (apply_defaults fs_type parsed).security
  pub performance : o.performance ≡ (apply_defaults fs_type parsed).performance

finish-Checked :
    (raw : List String) (fs_type : String) (p : Parsed)
    → Consistent p
    → Holds (Checked fs_type) (finish raw fs_type p)
unfolding finish
finish-Checked raw fs_type p h =
    elim (Result-cases (validate_options (apply_defaults fs_type p) fs_type)) [
      | inl (u, e) ↦ rw e (record {
        parsed = p;
        consistent = apply_defaults-Consistent fs_type p h;
        valid = e;
        options = refl;
        security = refl;
        performance = refl;
      })
      | inr (x, e) ↦ rw e tt
    ]

pub parse-Checked :
    (options_str fs_type : String) (o : MountOptions)
    → parse options_str fs_type ≡ ok o
    → Checked fs_type o
unfolding parse
parse-Checked options_str fs_type o h =
    let c : Holds (Checked fs_type) (parse options_str fs_type) =
      bind-Holds Consistent (Checked fs_type) (process_all (raw_options options_str) start) _
        (process_all-Consistent (raw_options options_str) start
          (record { asked = inl refl; exclusive = inl refl }))
        (λ p hp. finish-Checked (raw_options options_str) fs_type p hp) in
    rw h at c

validate_options-exclusive :
    (p : Parsed) (fs_type : String)
    → validate_options p fs_type ≡ ok tt
    → (p.security.read_only && contains_key "rw" p.options) ≡ false
unfolding validate_options
validate_options-exclusive p fs_type h =
    let first = (seq-ok _ _ tt h).0 in
    let second = (seq-ok _ _ tt first).0 in bail_if-ok _ conflicting_ro_rw (seq-ok _ _ tt second).0

-- Options that are accepted are read-only only if `ro` is among them and `rw` is not, and allow
-- set-user-identifier programs only if they do not forbid them.
pub parse-exclusive :
    (options_str fs_type : String) (o : MountOptions)
    → parse options_str fs_type ≡ ok o
    → ((o.security.read_only ≡ false)
        ⊎ ((contains_key "ro" o.options ≡ true) × (contains_key "rw" o.options ≡ false)))
      × ((o.security.suid ≡ false) ⊎ (o.security.nosuid ≡ false))
parse-exclusive options_str fs_type o h =
    let c = parse-Checked options_str fs_type o h in
    let q = apply_defaults fs_type c.parsed in
    let clash : (q.security.read_only && contains_key "rw" q.options) ≡ false =
      validate_options-exclusive q fs_type c.valid in
    rw (c.options, c.security)
      (
        elim c.consistent.asked [
          | inl e ↦ inl e
          | inr e ↦ elim (Bool-cases q.security.read_only) [
            | inr f ↦ inl f
            | inl f ↦ inr (e, ground (arith, clash, f))
          ]
        ],
        c.consistent.exclusive,
      )
