-- ===== src/Lib.antt =====
-- A verification library of Harbor Satellite.
--
-- Harbor Satellite distributes container images from a central Harbor registry to edge sites. Ground
-- Control (internal/groundcontrol), in the cloud, keeps users, sessions, groups and satellites and
-- serves them over HTTP. A satellite (internal/satellite), at the edge, fetches the state artifacts
-- of its groups, compares them with what it replicated last, and copies images to a local registry.
--
-- The parts and their files:
--   Satellite/Utils         internal/utils/utils.go, the helpers on texts
--   Satellite/State         state.go, artifact.go and the entities (RemoveNullTagArtifacts,
--                           ProcessState, FetchEntitiesFromState)
--   Satellite/Changes       GetChanges of state_process.go
--   Satellite/Groups        StateMap, NewStateMap and updateStateMap of state_process.go
--   Satellite/Replicator    replicator.go: Replicate and DeleteReplicationEntity
--   Satellite/Persistence   state_persistence.go: SaveState and LoadState, and the constructor of
--                           state_process.go that restores a process
--   Satellite/GroupState    processGroupState of state_process.go
--   Satellite/Execute       Execute of state_process.go: what its goroutines do under the lock
--   Satellite/Scheduler     scheduler/scheduler.go: its goroutines and those of its process
--   Satellite/HotReload     hotreload/hotreload.go
--   Satellite/Collect       collectResults and CanExecute of state_process.go
--   Config/Audit            the audit log in config.go and validate.go of pkg/config
--   Config/Manager          manager.go of pkg/config
--   Config/Validate         the rest of validate.go, and registry/config.go
--   GroundControl/RateLimit middleware/ratelimit.go
--   GroundControl/Policy    auth/policy.go
--   GroundControl/Accounts  the tables of users, sessions and login attempts, and their queries
--                           (database/*.sql.go)
--   GroundControl/Login     server/auth_handlers.go
--   GroundControl/Access    server/middleware.go: who a request is from
--   GroundControl/Users     server/user_handlers.go and server/bootstrap.go
--   GroundControl/Fleet     the tables of satellites, groups, configs, robot accounts and tokens, and
--                           their queries (database/*.sql.go)
--   GroundControl/Action    handlers that end at an error, and transactions (server/handleResponse.go)
--   GroundControl/Harbor    harbor/robot.go, utils/helper.go: robot accounts and artifacts in Harbor
--   GroundControl/Satellites    server/satellite_handlers.go and helpers.go, with a file each for
--                           Register, Ztr, Membership, Delete and Spiffe
--   GroundControl/GroupSync server/group_handlers.go
--   GroundControl/Configs   server/config_handlers.go
--   GroundControl/Redaction server/config_handlers.go: what the audit log records of configs
--   Common                  shared types, tests, maps and lists
--
-- The Go files of the satellite are in internal/satellite/state, if nothing else is said, and those of
-- Ground Control in internal/groundcontrol. Each file defines what its part does; the files below it
-- prove what holds of it, and its Tests run it at concrete inputs.
--
-- How they interact: a round of a group (process_group_state) reads the group from the list that
-- update_state_map keeps, fetches its state, asks get_changes what to do, calls
-- delete_replication_entity and replicate, and under the lock sets the group and calls save_state.
-- Execute meets the rounds at the lock in any order, collect_results gathers what they return, and
-- new_process reads what save_state left on the disk. A satellite validates its configuration before it
-- uses it. In Ground Control, the requests to log in pass the rate limiter first; a login stores a
-- session, which the authentication of later requests looks up, and the handlers of users end sessions
-- and change the table of users. The handlers of satellites, groups and configs read and write the
-- tables in a transaction and, before it commits, change the robot accounts and publish the state
-- artifacts in Harbor that a satellite then fetches.
--
-- State is passed on explicitly. The registry is a state of a client that is a parameter (Client,
-- with ClientLaws for what a write and a delete are documented to do), the disk is the state file
-- and one temporary file, and each system call may fail (Faults). encoding/json is a parameter
-- (Codec). The tables are lists of rows (Db, Fleet), and a call to a handler says which of its
-- queries fail. A handler is an action over the tables and Harbor's state (World): a transaction
-- that fails puts the tables back and leaves Harbor as it is by then. Harbor's API is a parameter
-- (record Harbor), and HarborLaws is what its calls are documented to do. The column robot_id, a
-- text of digits, is its number. A context is the number of its checks that still pass, so that it
-- may be cancelled before any image; the loops are structural on their lists and need no fuel. The
-- order of a range over a map is a parameter, and so is the order in which results arrive. Times
-- are natural numbers of nanoseconds, and sums of a time and a window do not overflow. What the column
-- of a session's expiry holds of a time is a parameter (Server.timestamp), and the answer to a login
-- gives the expiry in whole seconds, as time.RFC3339 does; other times are read as they were written.
-- In Ground Control, requests run one after the other, each to its end. A text is a sequence of
-- characters; `len` is the number of bytes of its encoding.
--
-- Not modelled: what the program only logs; the transport of HTTP and TLS; fetching artifacts with
-- crane; how the queries and transactions of requests interleave; SPIFFE's certificates, parsec,
-- cryptography, container runtimes and the environment, which call other systems.
pub mod Common
pub mod Config
pub mod GroundControl
pub mod Satellite
