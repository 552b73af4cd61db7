-- ===== src/Runtime/Tests.antt =====
-- Runs of the permissions of core/runtime/src/lib.rs.
use mathlib.Core.Option
use voidnet.Base.{
  ℕ, ◌≡◌, refl, Bool, true, false, Option, some, none, List, [], ◌∷◌, Text, codes, text_eq, any,
  not, ◌&&◌,
}
use voidnet.Base
use voidnet.Runtime.State.{RuntimeShellState, RuntimePermissionGrant}
use voidnet.Runtime.Permissions.{
  decide, find_grant, negotiate_capabilities, has_surface_capability, gateway_capability_is_trusted,
  upsert_permission, change_grant, is_safe_capability, find_surface_grant,
}
use voidnet.Runtime.Decisions.{keep, negotiate_capabilities_lem}

-- a shell in which `bob` was refused "messaging" on the surface "chat"
abbrev refused : RuntimePermissionGrant
refused = record {
  surface_id = codes "chat";
  peer_owner = codes "bob";
  capability = codes "messaging";
  allowed = false;
  persisted = true;
  requested_at_unix_ms = 1;
  decided_at_unix_ms = 2;
}

abbrev shell : RuntimeShellState ℕ
shell = record {
  registry = [];
  permissions = refused ∷ [];
  gateway_trust = [];
  updated_unix_ms = 2;
  rest = 0;
}

abbrev asked : List Text
asked = codes "service/files" ∷ codes "messaging" ∷ codes "camera" ∷ []

-- the stored refusal stands, and what is not safe is refused
run_bob :
    (negotiate_capabilities true (codes "chat") (codes "bob") 9 asked shell).rejected
    ≡ codes "messaging" ∷ codes "camera" ∷ []
unfolding negotiate_capabilities decide find_grant gateway_capability_is_trusted upsert_permission
    change_grant is_safe_capability text_eq voidnet.Base.strip_prefix
run_bob = refl

-- the same request of `eve`, with no grant stored
run_eve :
    (negotiate_capabilities true (codes "chat") (codes "eve") 9 asked shell).rejected
    ≡ codes "camera" ∷ []
unfolding negotiate_capabilities decide find_grant gateway_capability_is_trusted upsert_permission
    change_grant is_safe_capability text_eq voidnet.Base.strip_prefix
run_eve = refl

-- the refusal of `bob` is the answer for the surface, whoever asks
run_surface : has_surface_capability shell (codes "chat") (codes "messaging") ≡ false
unfolding has_surface_capability find_surface_grant text_eq
run_surface = refl

negotiate_capabilities_lem_example :
    ((negotiate_capabilities true (codes "chat") (codes "bob") 9 asked shell).rejected
      ≡ keep (λ c. not (decide true shell (codes "chat") (codes "bob") c)) asked)
    × ((c : Text)
        → any (λ r. text_eq r c) asked ≡ true
        → Option.map RuntimePermissionGrant.allowed (
            find_grant
              (codes "chat")
              (codes "bob")
              c
              (negotiate_capabilities true
                (codes "chat")
                (codes "bob")
                9
                asked
                shell).after.permissions)
          ≡ some (decide true shell (codes "chat") (codes "bob") c))
    × ((c : Text)
        → decide true
            (negotiate_capabilities true (codes "chat") (codes "bob") 9 asked shell).after
            (codes "chat")
            (codes "bob")
            c
          ≡ decide true shell (codes "chat") (codes "bob") c)
    × ((other_surface other_peer c : Text)
        → (text_eq (codes "chat") other_surface && text_eq (codes "bob") other_peer) ≡ false
        → find_grant other_surface other_peer c
            (negotiate_capabilities true
              (codes "chat")
              (codes "bob")
              9
              asked
              shell).after.permissions
          ≡ find_grant other_surface other_peer c shell.permissions)
negotiate_capabilities_lem_example =
    negotiate_capabilities_lem true (codes "chat") (codes "bob") 9 asked shell
