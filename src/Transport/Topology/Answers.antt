-- ===== src/Transport/Topology/Answers.antt =====
-- What the answers of the operations say of the change that they made.
use voidnet.Base.{
  ℕ, ◌≡◌, ◌≢◌, refl, inl, inr, Bool, true, false, Option, none, some, List, Text, is_empty,
  Bool-cases, ◌⊎◌, ◌++◌, ◌||◌, codes, text_eq,
}
use voidnet.Transport.Topology.Kinds.{
  NetworkReachability, NetworkReachability-discrete, MeshState, MeshState-discrete,
}
use voidnet.Base.Ascending.{has}
use voidnet.Transport.Topology.Records.{Clock, NetworkTopologyInfo, PeerTopology}
use voidnet.Transport.Topology.Addresses.{IsInferred}
use voidnet.Transport.Topology.Mesh.{set_mesh_state, mesh_unless}
use voidnet.Transport.Topology.Network.{
  changed_to, if_changed, network_reachability, observe_observed_address,
}
use voidnet.Transport.Topology.Reachability.{Protocol}

-- The answer is the new reachability, if it is another one, and none if it is the old one.
abbrev pub Tells : NetworkReachability → Option NetworkReachability × PeerTopology → Type 0
Tells before (none, s) = network_reachability s ≡ before
Tells before (some r, s) = (network_reachability s ≡ r) × (r ≢ before)

changed_to-Tells :
    (before : NetworkReachability) (s : PeerTopology) (d : Dec (network_reachability s ≡ before))
    → Tells before (changed_to d (network_reachability s), s)
changed_to-Tells before s (yes e) = e
changed_to-Tells before s (no n) = (refl, n)

if_changed-Tells :
    (before : NetworkReachability) (s : PeerTopology)
    → Tells before (if_changed before (network_reachability s), s)
if_changed-Tells before s =
    changed_to-Tells before s (NetworkReachability-discrete (network_reachability s) before)

-- `true` says that the state has changed, `false` that it was the wanted one and nothing changes.
abbrev pub TellsMesh : MeshState → PeerTopology → Bool × PeerTopology → Type 0
TellsMesh state s (true, s') =
    (s.mesh_state ≢ state)
    × (s'.mesh_state ≡ state)
    × (s'.peers ≡ s.peers)
    × (s'.network ≡ s.network)
TellsMesh state s (false, s') = (s.mesh_state ≡ state) × (s' ≡ s)

mesh_unless-TellsMesh :
    (now : ℕ) (state : MeshState) (s : PeerTopology) (d : Dec (s.mesh_state ≡ state))
    → TellsMesh state s (mesh_unless d now state s)
mesh_unless-TellsMesh now state s (yes e) = (e, refl)
mesh_unless-TellsMesh now state s (no n) = (n, refl, refl, refl)

-- `set_mesh_state` brings about the wanted state and keeps the peers and the network part, and its
-- answer tells whether the state was another one before; if not, nothing changes.
pub set_mesh_state-TellsMesh :
    (now : ℕ) (state : MeshState) (s : PeerTopology)
    → TellsMesh state s (set_mesh_state now state s)
unfolding set_mesh_state
set_mesh_state-TellsMesh now state s =
    mesh_unless-TellsMesh now state s (MeshState-discrete s.mesh_state state)

module _ (parse : Text → Option (List Protocol)) where
  -- An observed address is answered by the new reachability exactly if that is another one than before.
  pub observe_observed_address-Tells :
      (t : Clock) (address : Text) (s : PeerTopology)
      → Tells (network_reachability s) (observe_observed_address parse t address s)
  unfolding observe_observed_address
  observe_observed_address-Tells t address s = elim (Bool-cases (is_empty address)) [
    | inl h ↦ rw h refl
    | inr h ↦ rw h (if_changed-Tells (network_reachability s) _)
  ]

  -- The reachability that a NAT status brings: what it says itself, or else what the addresses say.
  abbrev pub IsJudged : Text → NetworkReachability → List Text → Type 0
  IsJudged status r addresses =
      ((status ≡ codes "Public") × (r ≡ NetworkReachability.public))
      ⊎ ((status ≡ codes "Private") × (r ≡ NetworkReachability.private))
      ⊎ ((status ≢ codes "Public") × (status ≢ codes "Private") × IsInferred parse r addresses)

  abbrev pub is_public : Text → Option Text → Bool
  is_public a none = false
  is_public a (some address) = text_eq a address

  -- The network part before and after a NAT status with a public address, if it has one.
  abbrev pub Judges : Text → Option Text → NetworkTopologyInfo → NetworkTopologyInfo → Type 0
  Judges status public_address before after =
      IsJudged status after.reachability (after.observed_addresses ++ after.listen_addresses)
      × ((a : Text)
          → has a after.observed_addresses
            ≡ (has a before.observed_addresses || is_public a public_address))
      × (after.listen_addresses ≡ before.listen_addresses)
      × (after.bootstrap_peers ≡ before.bootstrap_peers)
