-- ===== src/Mount/Options/Tables.antt =====
-- The tables of `MountOptionParser::new` in src/mount/options.rs and `is_supported`. A set of names is
-- their list.
use fuji.Base.{String, Bool, false, ◌||◌, Option, some, none, List, [], ◌∷◌, any, str_eq, Dict, get}

pub record MountOptionParser : Type 0 where
  pub fs_options : Dict (List String)
  pub global_security : List String
  pub boolean_options : List String

abbrev nfs_options : List String
nfs_options =
    "rsize" ∷ "wsize" ∷ "timeo" ∷ "retrans" ∷ "soft" ∷ "hard" ∷ "intr" ∷ "nointr" ∷ "tcp" ∷ "udp"
    ∷ "vers" ∷ "nfsvers" ∷ "port" ∷ "proto" ∷ "ac" ∷ "noac" ∷ "acregmin" ∷ "acregmax" ∷ "acdirmin"
    ∷ "acdirmax" ∷ "lookupcache" ∷ "fsc" ∷ "local_lock" ∷ "fscache" ∷ "nolock" ∷ "bg" ∷ "fg" ∷ []

abbrev cifs_options : List String
cifs_options =
    "rsize" ∷ "wsize" ∷ "vers" ∷ "username" ∷ "password" ∷ "domain" ∷ "uid" ∷ "gid" ∷ "file_mode"
    ∷ "dir_mode" ∷ "iocharset" ∷ "codepage" ∷ "sec" ∷ "serverino" ∷ "cache" ∷ "unc" ∷ "ip" ∷ "port"
    ∷ "netbiosname" ∷ "workgroup" ∷ "user" ∷ "pass" ∷ "rw" ∷ "ro" ∷ "guest" ∷ "nobrl" ∷ "servern"
    ∷ "posix" ∷ "mfsymlinks" ∷ "dynperm" ∷ "inode64" ∷ "acl" ∷ "noperm" ∷ "noserverino" ∷ "cifsacl"
    ∷ []

abbrev sshfs_options : List String
sshfs_options =
    "port" ∷ "ssh_command" ∷ "sftp_server" ∷ "direct_io" ∷ "cache" ∷ "cache_timeout"
    ∷ "cache_link_timeout" ∷ "cache_dir" ∷ "cache_xattr_timeout" ∷ "follow_symlinks"
    ∷ "transform_symlinks" ∷ "noatime" ∷ "nodiratime" ∷ "readonly" ∷ "allow_root" ∷ "allow_other"
    ∷ "default_permissions" ∷ "uid" ∷ "gid" ∷ "umask" ∷ "fmask" ∷ "dmask" ∷ "idmap" ∷ "nomap"
    ∷ "uidfile" ∷ "gidfile" ∷ "modules" ∷ "modulespath" ∷ "ssh_command_known_hosts_policy"
    ∷ "reconnect" ∷ "ServerAliveInterval" ∷ "ServerAliveCountMax" ∷ "controlpath" ∷ []

abbrev pub new : MountOptionParser
new = record {
  fs_options = ("nfs", nfs_options) ∷ ("cifs", cifs_options) ∷ ("sshfs", sshfs_options) ∷ [];
  global_security = "nosuid" ∷ "nodev" ∷ "noexec" ∷ "suid" ∷ "exec" ∷ "dev" ∷ "ro" ∷ "rw" ∷ [];
  boolean_options =
      "ro" ∷ "rw" ∷ "suid" ∷ "nosuid" ∷ "dev" ∷ "nodev" ∷ "exec" ∷ "noexec" ∷ "sync" ∷ "async"
      ∷ "dirsync" ∷ "nodiratime" ∷ "relatime" ∷ "norelatime" ∷ "noatime" ∷ "atime" ∷ "diratime"
      ∷ "nodiratime" ∷ "strictatime" ∷ "nostrictatime" ∷ "lazytime" ∷ "nolazytime" ∷ "soft" ∷ "hard"
      ∷ "intr" ∷ "nointr" ∷ "bg" ∷ "fg" ∷ "defaults" ∷ "auto" ∷ "noauto" ∷ "user" ∷ "nouser"
      ∷ "users" ∷ "nousers" ∷ "_netdev" ∷ "nofail" ∷ [];
}

abbrev contains : List String → String → Bool
contains names name = any (λ n. str_eq n name) names

-- `fs_options.get(fs_type).is_some_and(|opts| opts.contains(option))`
abbrev listed : String → Option (List String) → Bool
listed option (some names) = contains names option
listed option none = false

unfoldable pub is_supported : MountOptionParser → String → String → Bool
is_supported parser option fs_type =
    contains parser.boolean_options option
    || contains parser.global_security option
    || listed option (get fs_type parser.fs_options)
