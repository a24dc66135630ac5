-- ===== src/Mount/Config.antt =====
-- src/mount/mod.rs: the configuration entry of one mount. Paths are texts, times are nanoseconds,
-- and a hash map that is compared is held as its entries in the order of their keys.
use fuji.Base.{ℕ, ◌+◌, ◌%◌, ◌^◌, String, Bool, true, false, Option, some, List, String-discrete}
use mathlib.Core.Bool.{decide}
use native.Mathlib.Decide.{ℕ_discrete}

pub data MountType : Type 0 where
  nfs : String → String → List String → MountType
  smb : String → String → Option String → Option String → Option String → List String → MountType
  sshfs : String → Option String → String → Option String → Option String → List String → MountType

pub data MountStatus : Type 0 where
  active reconnecting failed disabled in_progress : MountStatus
  error : String → MountStatus

pub record MountConfig : Type 0 where
  pub id : String
  pub url : String
  pub mount_point : String
  pub mount_type : MountType
  pub enabled : Bool
  pub status : MountStatus
  pub created_at : ℕ
  pub updated_at : ℕ
  pub last_connected : Option ℕ
  pub reconnect_attempts : ℕ
  pub metadata : List (String × String)

pub MountStatus-discrete : Discrete MountStatus
MountStatus-discrete = hlevel String-discrete

pub MountType-discrete : Discrete MountType
MountType-discrete = hlevel String-discrete

-- The derived `PartialEq` compares field by field.
pub MountConfig-discrete : Discrete MountConfig
MountConfig-discrete =
    hlevel (String-discrete, ℕ_discrete, MountStatus-discrete, MountType-discrete)

unfoldable pub same_config : MountConfig → MountConfig → Bool
same_config a b = decide (MountConfig-discrete a b)

-- The clock is read twice; both readings are one argument.
unfoldable pub update_status : ℕ → MountStatus → MountConfig → MountConfig
update_status now active c = record c {
  status = active;
  updated_at = now;
  last_connected = some now;
  reconnect_attempts = 0;
}
update_status now status c = record c { status = status; updated_at = now }

-- The `u32` counter wraps in a release build.
unfoldable pub increment_reconnect_attempts : ℕ → MountConfig → MountConfig
increment_reconnect_attempts now c = record c {
  reconnect_attempts = (c.reconnect_attempts + 1) % 2 ^ 32;
  updated_at = now;
}

unfoldable pub is_active : MountConfig → Bool
is_active c = elim c.status [ active ↦ true | _ ↦ false ]

unfoldable pub enable : ℕ → MountConfig → MountConfig
unfolding update_status
enable now c = update_status now disabled (record c { enabled = true })

unfoldable pub disable : ℕ → MountConfig → MountConfig
unfolding update_status
disable now c = update_status now disabled (record c { enabled = false })
