-- ===== src/Security/PathSecurity.antt =====
-- src/security/path_security.rs: the validator of paths, the mounts that it watches and its log of
-- events. The file system is a parameter that does not change during a call, the clock is an
-- argument, and a call that panics on a poisoned lock is not modelled.
pub mod Validate
pub mod Allowed
pub mod Accepted
pub mod Integrity
pub mod Registered
use fuji.Base.{
  ℕ, ◌*◌, ◌-◌, String, Bool, true, false, Option, none, some, List, [], ◌∷◌, ◌++◌, any, drop,
  length, leb, ltb, str_eq, if◌then◌else◌, from_secs, Dict, get, remove, Result,
}

-- What the functions of `std::fs` and `tokio::fs` answer about a path. A time of modification is in
-- nanoseconds since the epoch; the names of a directory come with whether the reading of it ended
-- in an error.
pub record FileSystem : Type 0 where
  pub tokio_canonicalize : String → Option String
  pub canonicalize : String → Option String
  pub exists : String → Bool
  pub is_dir : String → Bool
  pub is_symlink : String → Result String Bool
  pub read_link : String → Result String String
  pub modified : String → Result String ℕ
  pub read_dir : String → Option (List String × Bool)

pub data ValidationStatus : Type 0 where
  valid : ValidationStatus
  blocked : String → ValidationStatus
  requires_verification : ValidationStatus
  failed : String → ValidationStatus

pub data IntegrityStatus : Type 0 where
  intact modified suspicious failed requires_verification : IntegrityStatus

pub data SymlinkAttackType : Type 0 where
  system_file_symlink boundary_escape symlink_chain race_condition toctou : SymlinkAttackType

-- The arguments are the fields of the source in their order.
mutual
  pub data ValidationResult : Type 0 where
    verdict : Bool → Option String → SecurityEvents → ValidationStatus → ValidationResult

  pub data PathSecurityEvent : Type 0 where
    path_validation :
        String → String → ValidationResult → ℕ → List (String × String) → PathSecurityEvent
    mount_integrity_check : String → String → IntegrityStatus → ℕ → List String → PathSecurityEvent
    symlink_attack : String → String → SymlinkAttackType → ℕ → Bool → PathSecurityEvent
    runtime_validation : String → String → ValidationResult → ℕ → ℕ → PathSecurityEvent

  pub data SecurityEvents : Type 0 where
    no_events : SecurityEvents
    event_then : PathSecurityEvent → SecurityEvents → SecurityEvents

pub data SecurityProfile : Type 0 where
  minimal standard high maximum : SecurityProfile

abbrev pub max_symlink_depth : SecurityProfile → ℕ
max_symlink_depth minimal = 5
max_symlink_depth standard = 3
max_symlink_depth high = 2
max_symlink_depth maximum = 1

abbrev pub validation_interval : SecurityProfile → ℕ
validation_interval minimal = from_secs 300
validation_interval standard = from_secs 120
validation_interval high = from_secs 60
validation_interval maximum = from_secs 30

abbrev pub max_mount_age : SecurityProfile → ℕ
max_mount_age minimal = from_secs 86400
max_mount_age standard = from_secs 43200
max_mount_age high = from_secs 21600
max_mount_age maximum = from_secs 10800

abbrev pub profile_name : SecurityProfile → String
profile_name minimal = "Minimal"
profile_name standard = "Standard"
profile_name high = "High"
profile_name maximum = "Maximum"

pub record MountSecurityConfig : Type 0 where
  pub mount_id : String
  pub mount_point : String
  pub source_path : String
  pub mount_time : ℕ
  pub allowed_paths : List String
  pub security_profile : SecurityProfile
  pub integrity_hash : Option String

pub record PathSecurityValidator : Type 0 where
  pub mounts : Dict MountSecurityConfig
  pub security_events : List PathSecurityEvent
  pub blocked_paths : List String
  pub dangerous_system_files : List String
  pub security_profile : SecurityProfile

abbrev pub dangerous_files : List String
dangerous_files =
    "/etc/passwd" ∷ "/etc/shadow" ∷ "/etc/group" ∷ "/etc/sudoers" ∷ "/etc/hosts" ∷ "/etc/crontab"
    ∷ "/bin/sh" ∷ "/bin/bash" ∷ "/bin/su" ∷ "/bin/sudo" ∷ "/usr/bin/passwd" ∷ "/usr/bin/chsh"
    ∷ "/root" ∷ "/var/log" ∷ "/var/spool" ∷ "/tmp/.X11-unix" ∷ "/proc/kcore" ∷ "/proc/kmsg"
    ∷ "/dev/mem" ∷ "/dev/kmem" ∷ "/dev/port" ∷ "/root/.ssh" ∷ "/home/*/.ssh" ∷ "/etc/ssh"
    ∷ "/etc/my.cnf" ∷ "/etc/postgresql" ∷ []

abbrev pub new_validator : SecurityProfile → PathSecurityValidator
new_validator profile = record {
  mounts = [];
  security_events = [];
  blocked_paths = [];
  dangerous_system_files = dangerous_files;
  security_profile = profile;
}

unfoldable pub block_path : String → PathSecurityValidator → PathSecurityValidator
block_path path v =
    if any (str_eq path) v.blocked_paths
    then v
    else record v { blocked_paths = v.blocked_paths ++ path ∷ [] }

-- The log is cut before it grows above a thousand events.
unfoldable pub log_security_event :
    PathSecurityEvent → PathSecurityValidator → PathSecurityValidator
log_security_event event v =
    let kept =
      if leb 1000 (length v.security_events)
      then drop 500 v.security_events
      else v.security_events in
    record v { security_events = kept ++ event ∷ [] }

unfoldable pub get_security_events : ℕ → PathSecurityValidator → List PathSecurityEvent
get_security_events limit v =
    let len = length v.security_events in
    if ltb limit len then drop (len - limit) v.security_events else v.security_events

abbrev pub accepted : ValidationResult
accepted = verdict true none no_events valid

abbrev pub is_safe : ValidationResult → Bool
is_safe (verdict safe warning_message security_events status) = safe

unfoldable pub unregister_mount : ℕ → String → PathSecurityValidator → PathSecurityValidator
unfolding log_security_event
unregister_mount now mount_id v =
    let removed = record v { mounts = remove mount_id v.mounts } in
    elim (get mount_id v.mounts) [
      | none ↦ removed
      | some config ↦
          log_security_event
            (path_validation config.mount_point "mount_unregistration" accepted now
              (("mount_id", mount_id) ∷ []))
            removed
    ]
