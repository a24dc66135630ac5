-- ===== src/Mount/Options.antt =====
-- src/mount/options.rs: parsed mount options and the errors of parsing them. The texts of the error
-- messages are left out: an error is the reason alone.
pub mod Text
pub mod Tables
pub mod Process
pub mod Parse
pub mod Consistent
pub mod Exclusive
pub mod Bounds
pub mod Defaults
pub mod Join
pub mod RoundTrip
use fuji.Base.{ℕ, String, Bool, false, Option, none, List, Dict}

pub record SecurityOptions : Type 0 where
  pub read_only : Bool
  pub nosuid : Bool
  pub nodev : Bool
  pub noexec : Bool
  pub suid : Bool
  pub fmode : Option ℕ
  pub dmode : Option ℕ
  pub uid : Option ℕ
  pub gid : Option ℕ

pub record PerformanceOptions : Type 0 where
  pub rsize : Option ℕ
  pub wsize : Option ℕ
  pub timeo : Option ℕ
  pub retrans : Option ℕ
  pub soft : Bool
  pub intr : Bool
  pub nfsvers : Option ℕ
  pub vers : Option String
  pub vers_smb : Option String

pub record MountOptions : Type 0 where
  pub raw : List String
  pub options : Dict String
  pub fs_type : String
  pub security : SecurityOptions
  pub performance : PerformanceOptions

abbrev pub default_security : SecurityOptions
default_security = record {
  read_only = false;
  nosuid = false;
  nodev = false;
  noexec = false;
  suid = false;
  fmode = none;
  dmode = none;
  uid = none;
  gid = none;
}

abbrev pub default_performance : PerformanceOptions
default_performance = record {
  rsize = none;
  wsize = none;
  timeo = none;
  retrans = none;
  soft = false;
  intr = false;
  nfsvers = none;
  vers = none;
  vers_smb = none;
}

pub data OptionError : Type 0 where
  invalid_size invalid_uid invalid_gid invalid_file_mode invalid_dir_mode : OptionError
  invalid_timeout invalid_retrans invalid_nfs_version : OptionError
  conflicting_ro_rw zero_timeout unsupported_nfs_version : OptionError
  rsize_too_small rsize_too_large wsize_too_small wsize_too_large : OptionError
  timeout_out_of_range : OptionError

-- What the parser fills while it reads the options.
pub record Parsed : Type 0 where
  pub options : Dict String
  pub security : SecurityOptions
  pub performance : PerformanceOptions
