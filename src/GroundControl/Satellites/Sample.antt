-- ===== src/GroundControl/Satellites/Sample.antt =====
-- A satellite in two groups, and a Harbor in memory.
use harbor_satellite.Common.{List, String, [], false, none, pos, some, ℕ, ◌∷◌}
use harbor_satellite.GroundControl.Fleet.{
  Config, Fleet, Group, RobotAccount, Satellite, SatelliteGroup,
}
use harbor_satellite.GroundControl.Action.{World}
use harbor_satellite.GroundControl.Harbor.{Env}
use harbor_satellite.GroundControl.Harbor.Simulated.{Sim, put}
use harbor_satellite.GroundControl.Satellites.{Call}

abbrev pub env : Env
env = record {
  url = "https://h";
  username = "u";
  password = "p";
  skip_health_check = false;
  robot_duration_days = 30;
  unix_now = "1";
}

abbrev pub call : Call
call = record {
  env = env;
  now = 5;
  hash = λ secret. some secret;
  random_token = some "tok";
  fails = λ query. false;
}

abbrev pub edge : Satellite
edge = record { id = 1; name = "edge"; last_seen = none; heartbeat_interval = none }

abbrev pub group : ℕ → String → List String → Group
group id name projects = record {
  id = id;
  group_name = name;
  registry_url = "https://h";
  projects = projects;
}

abbrev pub account : RobotAccount
account = record {
  id = 4;
  robot_name = "robot$edge";
  robot_secret_hash = "first";
  robot_id = 7;
  satellite_id = 1;
  robot_expiry = none;
}

abbrev pub config : Config
config = record { id = 3; config_name = "default"; registry_url = "https://h"; config = "{}" }

abbrev pub membership : ℕ → SatelliteGroup
membership id = record { satellite_id = 1; group_id = id }

-- The satellite is in the first of two groups.
abbrev pub tables : Fleet
tables = record {
  satellites = edge ∷ [];
  groups = group 2 "base" ("library" ∷ []) ∷ group 6 "apps" ("shop" ∷ []) ∷ [];
  robot_accounts = account ∷ [];
  tokens = (record { satellite_id = 1; token = "t"; expires_at = 9 }) ∷ [];
  satellite_groups = membership 2 ∷ [];
  configs = config ∷ [];
  satellite_configs = (record { satellite_id = 1; config_id = 3 }) ∷ [];
  next_id = 8;
}

abbrev pub harbor : Sim
harbor = record {
  robots =
      put 7 (some (record { id = 7; name = "robot$edge"; expires_at = pos 0; permissions = [] }))
        (λ i. none);
  secrets = put 7 (some "first") (λ i. none);
  images = λ a. none;
  next_id = 9;
}

abbrev pub world : World Sim
world = record { db = tables; remote = harbor }
