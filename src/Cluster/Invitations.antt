-- ===== src/Cluster/Invitations.antt =====
-- Which invitations src/cluster/discovery.rs accepts.
use fuji.Base.{
  ℕ, ◌+◌, ◌≤◌, ◌<◌, String, ◌≡◌, arith, inl, inr, ◌⊎◌, Bool-cases, eq_refl, ltb, ltb→lt, ok, err,
}
use fuji.Config.{disconnected}
use fuji.Cluster.Discovery.{
  invitation_expired, hours, signed_text, generate_signature, new_invitation, verify,
  check_invitation, accept_invitation,
}

module _ (sign : String → String) where
  -- An invitation, whatever pre-shared key and version are put into it on its way, is accepted
  -- until it expires, as the peer with the key that was put in, and refused as expired after that:
  -- the signature covers neither.
  pub invitation-accepted :
      (now later : ℕ) (instance_id address psk : String) (expires_in : ℕ)
      (new_psk new_version : String)
      → let i = record (new_invitation sign now instance_id address psk expires_in) {
        psk = new_psk;
        version = new_version;
      } in
        ((later ≤ now + hours expires_in)
          × (accept_invitation sign later i
              ≡ ok (record {
                id = instance_id;
                address = address;
                psk = new_psk;
                last_seen = later;
                status = disconnected;
              })))
        ⊎ ((now + hours expires_in < later)
            × (accept_invitation sign later i ≡ err invitation_expired))
  unfolding new_invitation accept_invitation check_invitation verify generate_signature
  invitation-accepted now later instance_id address psk expires_in new_psk new_version =
      let own = eq_refl (sign (signed_text instance_id address (now + hours expires_in))) in
      elim (Bool-cases (ltb (now + hours expires_in) later)) [
        | inl past ↦ inr (ltb→lt _ later past, ground (arith, own, past))
        | inr valid ↦ inl (ground (arith, valid), ground (arith, own, valid))
      ]
