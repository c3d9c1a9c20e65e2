-- ===== src/Protocol/Tests.antt =====
-- Concrete action paths.
use camera_platform.Prelude.{codes, ◌≡◌, refl}
use camera_platform.Protocol.{action_on, profile_action_path}

hd_on : profile_action_path (codes "hd") action_on ≡ codes "/api/profiles/hd/on"
unfolding profile_action_path
hd_on = refl
