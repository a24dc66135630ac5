-- ===== src/Tests/Options.antt =====
-- Option texts that src/mount/options.rs parses.
use fuji.Base.{
  ◌≡◌, refl, ◌⊎◌, String, true, false, none, some, List, [], ◌∷◌, ◌++◌, Dict, ok, err, contains_key,
  get, insert, sort_by,
}
use fuji.Mount.Options.{MountOptions, default_security, default_performance, conflicting_ro_rw}
use fuji.Mount.Options.Text.{
  parse_size, parse_mode, split_commas, trim_start, trim_end, show_digits,
}
use fuji.Mount.Options.Tables.{new, is_supported}
use fuji.Mount.Options.Parse.{
  start, parse, format, finish, process_all, apply_defaults, nfs_defaults, cifs_defaults,
  default_rw, default_sizes, default_modes, default_to, default_unless, validate_options,
  normalize_fs_type,
}
use fuji.Mount.Options.Exclusive.{parse-exclusive}
use fuji.Mount.Options.Bounds.{InRange, SizesInRange, parse-nfs_bounds}
use fuji.Mount.Options.Defaults.{Complete, parse-nfs_defaults}

four_kibibytes : parse_size " 4k " ≡ ok 4096
unfolding parse_size
four_kibibytes = refl

-- Every suffix letter is taken off, and `0` alone is no mode.
doubled_suffix : parse_size "4KK" ≡ ok 4096
unfolding parse_size
doubled_suffix = refl

zero_mode : parse_mode "0" ≡ none
unfolding parse_mode
zero_mode = refl

octal_mode : parse_mode "0644" ≡ some 420
unfolding parse_mode
octal_mode = refl

abbrev text : String
text = "ro, soft,rsize=64k"

abbrev pieces : List String
pieces = "ro" ∷ "soft" ∷ "rsize=64k" ∷ []

abbrev given : Dict String
given = ("ro", "") ∷ ("soft", "") ∷ ("rsize", "65536") ∷ []

abbrev on_nfs : MountOptions
on_nfs = record {
  raw = pieces;
  options = given ++ ("intr", "") ∷ ("wsize", "1048576") ∷ ("timeo", "600") ∷ ("retrans", "2") ∷ [];
  fs_type = "nfs";
  security = record default_security { read_only = true };
  performance = record default_performance {
    soft = true;
    intr = true;
    rsize = some 65536;
    wsize = some 1_048_576;
    timeo = some 600;
    retrans = some 2;
  };
}

abbrev on_cifs : MountOptions
on_cifs = record {
  raw = pieces;
  options = given ++ ("wsize", "1048576") ∷ [];
  fs_type = "cifs";
  security = record default_security { read_only = true };
  performance = record default_performance {
    soft = true;
    rsize = some 65536;
    wsize = some 1_048_576;
  };
}

parsed_for_nfs : parse text "nfs" ≡ ok on_nfs
unfolding parse finish trim_start trim_end split_commas process_all apply_defaults nfs_defaults
    default_sizes default_modes default_to default_unless validate_options normalize_fs_type get
    insert parse_size show_digits
parsed_for_nfs = refl

parsed_for_cifs : parse text "cifs" ≡ ok on_cifs
unfolding parse finish trim_start trim_end split_commas process_all apply_defaults cifs_defaults
    default_rw default_sizes default_to validate_options normalize_fs_type get insert parse_size
    show_digits
parsed_for_cifs = refl

-- Under `nfs4` nothing is checked and there are no defaults, though the record names `nfs`.
nfs4_unchecked :
    parse "rsize=1" "nfs4"
    ≡ ok (record {
      raw = "rsize=1" ∷ [];
      options = ("rsize", "1") ∷ [];
      fs_type = "nfs";
      security = default_security;
      performance = record default_performance { rsize = some 1 };
    })
unfolding parse finish trim_start trim_end split_commas process_all apply_defaults validate_options
    normalize_fs_type get insert parse_size show_digits
nfs4_unchecked = refl

formatted : format on_cifs ≡ "ro,rsize=65536,soft,wsize=1048576"
unfolding format sort_by
formatted = refl

clash : parse "rw,ro" "sshfs" ≡ err conflicting_ro_rw
unfolding parse trim_start trim_end split_commas process_all get insert
clash = refl

-- As a key with a value, `ro` is not compared with `rw`.
no_clash :
    process_all ("rw" ∷ "ro=1" ∷ []) start
    ≡ ok (record start { options = ("rw", "") ∷ ("ro", "1") ∷ [] })
unfolding process_all get insert
no_clash = refl

reconnect_on_sshfs : is_supported new "reconnect" "sshfs" ≡ true
unfolding is_supported get
reconnect_on_sshfs = refl

parse-exclusive_example :
    ((on_nfs.security.read_only ≡ false)
      ⊎ ((contains_key "ro" on_nfs.options ≡ true) × (contains_key "rw" on_nfs.options ≡ false)))
    × ((on_nfs.security.suid ≡ false) ⊎ (on_nfs.security.nosuid ≡ false))
parse-exclusive_example = parse-exclusive text "nfs" on_nfs parsed_for_nfs

parse-nfs_bounds_example :
    SizesInRange on_nfs.performance
    × InRange 3 4 on_nfs.performance.nfsvers
    × InRange 1 3600 on_nfs.performance.timeo
parse-nfs_bounds_example = parse-nfs_bounds text on_nfs parsed_for_nfs

parse-nfs_defaults_example : Complete on_nfs.options
parse-nfs_defaults_example = parse-nfs_defaults text on_nfs parsed_for_nfs
