-- ===== src/Node/Event.antt =====
-- The events of core/transport/src/event.rs.
use voidnet.Base.{ℕ, Bool, Option, List, Text}
use voidnet.Transport.Lifecycle.{NodeLifecycleState}
use voidnet.Transport.Topology.Kinds.{PeerConnectionState, MeshState, NetworkReachability}
use voidnet.Transport.Topology.Records.{PeerRuntimeInfo}

pub data DiscoverySource : Type 0 where
  bootstrap mdns identify reconnect manual : DiscoverySource

pub data TransportEvent : Type 0 where
  identity_loaded : (peer_id fingerprint path : Text) → TransportEvent
  identity_persisted : (peer_id fingerprint path : Text) → TransportEvent
  runtime_mounted : (peer_id : Text) (runtime : PeerRuntimeInfo) → TransportEvent
  runtime_ready : (peer_id : Text) (runtime : PeerRuntimeInfo) → TransportEvent
  surface_resolving : (route : Text) → TransportEvent
  surface_resolved : (route peer_owner surface_id : Text) (latency_ms : ℕ) → TransportEvent
  surface_mounting : (route peer_owner surface_id : Text) → TransportEvent
  surface_mounted : (route surface_id session_id : Text) (latency_ms : ℕ) → TransportEvent
  surface_loaded : (route surface_id : Text) (state_revision : ℕ) → TransportEvent
  surface_updated :
      (route surface_id : Text) (changed_bindings : List Text) (source : Text) → TransportEvent
  surface_action_triggered : (route surface_id action : Text) → TransportEvent
  surface_state_changed :
      (route surface_id : Text) (state_revision : ℕ) (changed_bindings : List Text)
      (distributed : Bool)
      → TransportEvent
  surface_parsed : (route surface_id : Text) → TransportEvent
  runtime_tree_built : (route surface_id : Text) (nodes : ℕ) → TransportEvent
  surface_rendered : (route surface_id : Text) (nodes render_ms : ℕ) → TransportEvent
  surface_render_completed :
      (route surface_id : Text) (nodes affected_nodes rerender_count render_ms : ℕ) → TransportEvent
  surface_render_failed : (route surface_id error : Text) → TransportEvent
  input_updated : (route surface_id input_id : Text) → TransportEvent
  action_dispatched : (route surface_id action : Text) → TransportEvent
  surface_permission_denied :
      (route surface_id : Text) (action : Option Text) (capability reason : Text) → TransportEvent
  gateway_registered : (domain gateway_id owner_peer : Text) → TransportEvent
  gateway_trust_evaluated :
      (domain trust_state trust_level : Text) (warning : Option Text) → TransportEvent
  gateway_mounted : (route gateway_id external_target : Text) → TransportEvent
  gateway_bridge_prepared :
      (route gateway_id : Text) (protocol_stack : List Text) (external_target : Text)
      → TransportEvent
  bridge_session_started : (route session_id gateway_id external_target : Text) → TransportEvent
  gateway_fetch_dispatched :
      (route gateway_id request_id method external_target : Text) → TransportEvent
  gateway_response_received :
      (route gateway_id response_id : Text) (status : ℕ) (content_type : Option Text)
      (bytes latency_ms : ℕ)
      → TransportEvent
  gateway_stream_updated :
      (route gateway_id : Text) (chunks bytes : ℕ) (final_chunk : Bool) → TransportEvent
  external_resource_mounted :
      (route gateway_id snapshot_id : Text) (content_type : Option Text) (bytes : ℕ)
      (cache_state : Text)
      → TransportEvent
  response_surface_rendered :
      (route gateway_id : Text) (bytes : ℕ) (render_mode : Text) → TransportEvent
  gateway_bridge_failed : (route gateway_id error : Text) → TransportEvent
  surface_hot_reloaded :
      (route surface_id : Text) (generation : ℕ) (preserved_session : Bool) → TransportEvent
  surface_unmounted : (route surface_id session_id : Text) → TransportEvent
  runtime_shutdown : (peer_id : Text) (runtime : PeerRuntimeInfo) → TransportEvent
  capability_requested : (route capability peer_owner : Text) → TransportEvent
  capability_granted : (peer_id capability scope : Text) → TransportEvent
  capability_rejected : (peer_id capability reason : Text) → TransportEvent
  bootstrap_configured : (peers : ℕ) → TransportEvent
  bootstrap_dial_attempt : (peer_id : Option Text) (address : Text) (attempt : ℕ) → TransportEvent
  bootstrap_connected : (peer_id : Text) (address : Option Text) → TransportEvent
  nat_status_changed :
      (status : Text) (public_address : Option Text) (confidence : ℕ) → TransportEvent
  relay_reservation_attempted : (relay_peer_id address : Text) → TransportEvent
  relay_reservation_accepted : (relay_peer_id : Text) (renewal : Bool) → TransportEvent
  relay_reservation_failed : (relay_peer_id address : Option Text) (error : Text) → TransportEvent
  relay_fallback_activated :
      (peer_id : Text) (relay_peer_id : Option Text) (reason : Text) → TransportEvent
  relay_circuit_established :
      (peer_id : Text) (relay_peer_id address : Option Text) → TransportEvent
  relay_session_established :
      (peer_id : Text) (relay_peer_id address : Option Text) → TransportEvent
  hole_punch_attempt : (peer_id : Text) (relay_peer_id : Option Text) → TransportEvent
  hole_punch_succeeded : (peer_id : Text) → TransportEvent
  hole_punch_failed : (peer_id error : Text) → TransportEvent
  direct_upgrade_succeeded : (peer_id : Text) → TransportEvent
  direct_upgrade_failed : (peer_id error : Text) → TransportEvent
  reachability_changed :
      (reachability : NetworkReachability) (observed_address : Option Text) (detail : Text)
      → TransportEvent
  listening : (address : Text) → TransportEvent
  peer_discovered :
      (peer_id : Text) (addresses : List Text) (source : DiscoverySource) → TransportEvent
  peer_authenticated : (peer_id agent : Text) (protocols : List Text) → TransportEvent
  peer_runtime_discovered : (peer_id : Text) (runtime : PeerRuntimeInfo) → TransportEvent
  peer_disconnected : (peer_id reason : Text) → TransportEvent
  direct_connection_established : (peer_id : Text) (address : Option Text) → TransportEvent
  transport_connected : (peer_id : Text) (address : Option Text) (transport : Text) → TransportEvent
  transport_failed : (peer_id address : Option Text) (error : Text) → TransportEvent
  session_encrypted : (peer_id transport cipher : Text) → TransportEvent
  encrypted_session_established : (peer_id transport cipher : Text) → TransportEvent
  dns_record_published :
      (domain owner_peer_id target_peer_id runtime_surface : Text) (ttl_secs : ℕ) → TransportEvent
  dns_record_updated :
      (domain owner_peer_id target_peer_id runtime_surface : Text) (ttl_secs : ℕ) → TransportEvent
  dns_record_expired : (domain owner_peer_id : Text) → TransportEvent
  dns_record_rejected : (domain reason : Text) → TransportEvent
  dns_conflict_detected :
      (domain active_owner_peer_id conflicting_owner_peer_id : Text) → TransportEvent
  dns_resolution_succeeded :
      (domain target_peer_id runtime_surface : Text) (latency_ms : ℕ) → TransportEvent
  dns_resolution_failed : (domain reason : Text) → TransportEvent
  runtime_session_started : (route session_id peer_owner surface_id : Text) → TransportEvent
  runtime_session_closed : (route session_id peer_owner surface_id : Text) → TransportEvent
  session_negotiation_started : (peer_id session_id transport : Text) → TransportEvent
  payload_verified : (peer_id session_id message_id : Text) → TransportEvent
  encrypted_message_delivered :
      (peer_id session_id direction : Text) (size_bytes : ℕ) → TransportEvent
  invalid_signature_rejected : (peer_id : Option Text) (context : Text) → TransportEvent
  replay_rejected : (peer_id context nonce : Text) → TransportEvent
  decryption_failed : (peer_id session_id reason : Text) → TransportEvent
  session_recovered :
      (peer_id : Text) (active_rooms inbox_messages unread_messages : ℕ) → TransportEvent
  message_received : (peer_id : Text) (room : Option Text) (session_id : Text) → TransportEvent
  inbox_synchronized : (messages unread_messages : ℕ) (room : Option Text) → TransportEvent
  presence_updated :
      (peer_id : Text) (room : Option Text) (presence : Text) (last_seen_unix_ms : ℕ)
      → TransportEvent
  notification_raised :
      (kind : Text) (room peer_id : Option Text) (unread_notifications : ℕ) → TransportEvent
  room_joined : (room peer_id : Text) → TransportEvent
  room_left : (room peer_id : Text) → TransportEvent
  room_state_synchronized :
      (room peer_id : Text) (members events : ℕ) (reason : Text) → TransportEvent
  room_membership_changed : (room peer_id action : Text) → TransportEvent
  mesh_partition_detected : (affected_peers : ℕ) (reason : Text) → TransportEvent
  mesh_state_changed : (state : MeshState) (reason : Text) → TransportEvent
  partition_detected : (affected_peers : ℕ) (reason : Text) → TransportEvent
  partition_recovered : (recovered_peers : ℕ) (reason : Text) → TransportEvent
  ping : (peer_id : Text) (latency_ms : ℕ) → TransportEvent
  peer_state_changed : (peer_id : Text) (state : PeerConnectionState) → TransportEvent
  lifecycle_transition : (from to : NodeLifecycleState) (reason : Text) → TransportEvent
  topology_persisted : (path : Text) → TransportEvent
  shutdown : (state : NodeLifecycleState) → TransportEvent
