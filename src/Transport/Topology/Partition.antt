-- ===== src/Transport/Topology/Partition.antt =====
-- What a partition of the mesh leaves.
use voidnet.Base.{
  ℕ, suc, ◌≡◌, ◌≢◌, refl, ap, ◌⊎◌, inl, inr, true, false, Option, none, some, [], ◌∷◌, Text,
  text_eq, arith, Bool-cases, length, count,
}
use voidnet.Base.Map
use voidnet.Base.Map.{Map, map_option}
use voidnet.Transport.Topology.Kinds.{PeerConnectionState, is_quarantined, is_active}
use voidnet.Transport.Topology.Records.{Clock, PeerRecord, PeerTopology}
use voidnet.Transport.Topology.Mesh.{
  partition_peer, partition_from, mark_partitioned, is_ready, active_peer_count, known_peer_count,
  encrypted_session_count,
}

-- The peer was in quarantine and has the record that it had, or it was not, and is partitioned and
-- has no runtime that is ready.
abbrev pub IsCut : PeerRecord → PeerRecord → Type 0
IsCut before after =
    ((before.state ≡ PeerConnectionState.quarantined) × (after ≡ before))
    ⊎ ((before.state ≢ PeerConnectionState.quarantined)
        × (after.state ≡ PeerConnectionState.partitioned)
        × (is_ready after ≡ false))

is_quarantined-eq_true :
    (s : PeerConnectionState) → is_quarantined s ≡ true → s ≡ PeerConnectionState.quarantined
is_quarantined-eq_true s h = ground arith

is_quarantined-eq_false :
    (s : PeerConnectionState) → is_quarantined s ≡ false → s ≢ PeerConnectionState.quarantined
is_quarantined-eq_false s h e = ground (arith, ap is_quarantined e)

partition_peer-IsCut : (now : ℕ) (r : PeerRecord) → IsCut r (partition_peer now r)
unfolding partition_peer
partition_peer-IsCut now r = elim (Bool-cases (is_quarantined r.state)) [
  | inl h ↦ inl (is_quarantined-eq_true r.state h, rw h refl)
  | inr h ↦ inr (is_quarantined-eq_false r.state h, rw h refl, rw h ground arith)
]

abbrev pub IsCutIn : Option PeerRecord → Option PeerRecord → Type 0
IsCutIn none after = after ≡ none
IsCutIn (some r) after = (r' : PeerRecord) × (after ≡ some r') × IsCut r r'

get-partition_from :
    (t : Clock) (n : ℕ) (k : Text) (m : Map PeerRecord)
    → IsCutIn (Map.get k m) (Map.get k (partition_from t n m))
unfolding Map.get partition_from
get-partition_from t n k [] = refl
get-partition_from t n k ((j, r) ∷ m) = elim (Bool-cases (text_eq j k)) [
  | inl h ↦ rw h (partition_peer (t n) r, refl, partition_peer-IsCut (t n) r)
  | inr h ↦ rw h (get-partition_from t (suc n) k m)
]

-- After a partition each peer that was in quarantine has the record that it had, each other peer is
-- partitioned and has no runtime that is ready, and no peer has come or gone.
pub get-mark_partitioned :
    (t : Clock) (s : PeerTopology) (k : Text)
    → IsCutIn (Map.get k s.peers) (Map.get k (mark_partitioned t s).peers)
unfolding mark_partitioned
get-mark_partitioned t s k = get-partition_from t 1 k s.peers

is_active-partition_peer :
    (now : ℕ) (r : PeerRecord) → is_active (partition_peer now r).state ≡ false
unfolding partition_peer
is_active-partition_peer now r = ground arith

active-partition_from :
    (t : Clock) (n : ℕ) (m : Map PeerRecord)
    → count (λ r. is_active r.state) (Map.values (partition_from t n m)) ≡ 0
unfolding count Map.values partition_from
active-partition_from t n [] = refl
active-partition_from t n ((k, r) ∷ m) =
    rw (is_active-partition_peer (t n) r) (active-partition_from t (suc n) m)

encrypted-partition_peer :
    (now : ℕ) (r : PeerRecord) → (partition_peer now r).session.encrypted ≡ r.session.encrypted
unfolding partition_peer
encrypted-partition_peer now r = ground arith

encrypted-partition_from :
    (t : Clock) (n : ℕ) (m : Map PeerRecord)
    → count (λ r. r.session.encrypted) (Map.values (partition_from t n m))
      ≡ count (λ r. r.session.encrypted) (Map.values m)
unfolding count Map.values partition_from
encrypted-partition_from t n [] = refl
encrypted-partition_from t n ((k, r) ∷ m) =
    rw (encrypted-partition_peer (t n) r, encrypted-partition_from t (suc n) m) refl

length-partition_from :
    (t : Clock) (n : ℕ) (m : Map PeerRecord) → length (partition_from t n m) ≡ length m
unfolding partition_from
length-partition_from t n [] = refl
length-partition_from t n ((k, r) ∷ m) = rw (length-partition_from t (suc n) m) refl

-- After a partition no peer counts as active, and the counts of the known peers and of the encrypted
-- sessions are what they were.
pub counts-mark_partitioned :
    (t : Clock) (s : PeerTopology)
    → (active_peer_count (mark_partitioned t s) ≡ 0)
      × (known_peer_count (mark_partitioned t s) ≡ known_peer_count s)
      × (encrypted_session_count (mark_partitioned t s) ≡ encrypted_session_count s)
unfolding mark_partitioned active_peer_count known_peer_count encrypted_session_count
counts-mark_partitioned t s = (
  active-partition_from t 1 s.peers,
  length-partition_from t 1 s.peers,
  encrypted-partition_from t 1 s.peers,
)
