-- ===== src/Cluster/Discovery.antt =====
-- src/cluster/discovery.rs: invitations into a cluster. `sign` is the HMAC of a text under the key
-- of the program, in base64; a key of any length is accepted there. The network address and the
-- random pre-shared key are arguments. The number of hours is not negative, and so small that the
-- time of expiry is a time.
use Prim.Native.String.{◌++◌ as append}
use fuji.Base.{
  ℕ, ◌+◌, ◌-◌, ◌*◌, ◌/◌, max, String, Bool, not, Option, none, some, List, [], ◌∷◌, ltb, str_eq,
  if◌then◌else◌, Dict, insert, remove, Result, ok, err, minutes,
}
use fuji.Config.{PeerInfo, disconnected}
use fuji.Mount.Options.Text.{show_usize}
use fuji.Sync.Protocol.{timestamp_nanos}

pub record ClusterInvitation : Type 0 where
  pub version : String
  pub instance_id : String
  pub address : String
  pub psk : String
  pub expires_at : ℕ
  pub signature : String

pub data InvitationError : Type 0 where
  invalid_signature invitation_expired : InvitationError

-- The text that is signed: neither the pre-shared key nor the version is part of it.
abbrev pub signed_text : String → String → ℕ → String
signed_text instance_id address expires_at =
    append (append (append (append instance_id ":") address) ":")
      (show_usize (timestamp_nanos expires_at))

abbrev pub cluster_port : ℕ
cluster_port = 8080

abbrev pub hours : ℕ → ℕ
hours n = minutes (n * 60)

abbrev pub is_expired : ℕ → ClusterInvitation → Bool
is_expired now i = ltb i.expires_at now

-- `HashMap::retain` by a loop that collects the keys and a loop that removes them.
unfoldable pub expired_ids : ℕ → Dict ClusterInvitation → List String
expired_ids now [] = []
expired_ids now ((id, i) ∷ m) =
    let rest = expired_ids now m in if is_expired now i then id ∷ rest else rest

unfoldable pub remove_all : List String → Dict ClusterInvitation → Dict ClusterInvitation
remove_all [] m = m
remove_all (id ∷ ids) m = remove_all ids (remove id m)

unfoldable pub cleanup_expired_invitations : ℕ → Dict ClusterInvitation → Dict ClusterInvitation
unfolding expired_ids remove_all
cleanup_expired_invitations now m = remove_all (expired_ids now m) m

unfoldable pub hours_until_expiration : ℕ → ClusterInvitation → ℕ
hours_until_expiration now i =
    if ltb now i.expires_at then max 1 ((i.expires_at - now) / 1_000_000_000 / 3600) else 0

-- The peer that an invitation stands for.
abbrev pub invited_peer : ℕ → ClusterInvitation → PeerInfo
invited_peer now i = record {
  id = i.instance_id;
  address = i.address;
  psk = i.psk;
  last_seen = now;
  status = disconnected;
}

module _ (sign : String → String) where
  unfoldable pub generate_signature : String → String → ℕ → String
  generate_signature instance_id address expires_at =
      sign (signed_text instance_id address expires_at)

  unfoldable pub new_invitation : ℕ → String → String → String → ℕ → ClusterInvitation
  unfolding generate_signature
  new_invitation now instance_id address psk expires_in_hours =
      let expires_at = now + hours expires_in_hours in
      record {
        version = "1.0";
        instance_id = instance_id;
        address = address;
        psk = psk;
        expires_at = expires_at;
        signature = generate_signature instance_id address expires_at;
      }

  unfoldable pub verify : ClusterInvitation → Bool
  unfolding generate_signature
  verify i = str_eq i.signature (generate_signature i.instance_id i.address i.expires_at)

  -- The invitation, and the table of those that were issued.
  unfoldable pub generate_invitation :
      ℕ
      → String
      → String
      → String
      → Option ℕ
      → Dict ClusterInvitation
      → ClusterInvitation × Dict ClusterInvitation
  unfolding new_invitation
  generate_invitation now instance_id ip psk expires_in_hours issued =
      let expires_in : ℕ = elim expires_in_hours [ some h ↦ h | none ↦ 24 ] in
      let invitation =
        new_invitation now instance_id (append (append ip ":") (show_usize cluster_port)) psk
          expires_in in
      (invitation, insert invitation.instance_id invitation issued)

  unfoldable pub check_invitation : ℕ → ClusterInvitation → Result InvitationError (Unit {0})
  unfolding verify
  check_invitation now i =
      if not (verify i)
      then err invalid_signature
      else if is_expired now i
      then err invitation_expired
      else ok tt

  unfoldable pub accept_invitation : ℕ → ClusterInvitation → Result InvitationError PeerInfo
  unfolding check_invitation
  accept_invitation now i = elim (check_invitation now i) [
    | ok u ↦ ok (invited_peer now i)
    | err e ↦ err e
  ]
