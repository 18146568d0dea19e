-- ===== src/Lib.antt =====
-- helix_acs: a TR-069 auto configuration server in Go. A customer's device (CPE) opens a CWMP session
-- with an Inform; the server finds the schema and the driver of its vendor and model, maps unified
-- parameter names to the device's paths, and works through the tasks that wait for the device, among
-- them multi-step provisioning flows read from driver files.
--
-- The parts, the files that model them, and what they translate:
-- - Prelude, Text, Dict: native numbers and texts with what the code uses of Go's strings and
--   strconv, and Go's maps with text keys as association lists. The order of such a list stands for
--   the order of one iteration over the map, which Go leaves open.
-- - Datamodel: internal/datamodel/model.go, tr181.go and tr098.go. The Mapper interface is a record
--   of paths by subject; TR181Mapper and TR098Mapper are records of index overrides, and
--   ApplyInstanceMap is apply_instance_map.
-- - Schema.Registry, Schema.Resolver, Schema.Vendor, Schema.Mapper: internal/schema/schema.go,
--   registry.go, resolver.go and mapper.go. A registry is what LoadDir has built from the files.
-- - Schema.Flow, Schema.Driver, Schema.Provision: the provisioning flows and their executor in
--   internal/schema/provision.go, and the drivers of internal/schema/driver.go.
-- - Cwmp.WanProvision: internal/cwmp/wan_provision.go, the state machine that a session drives by the
--   responses of the CPE. Cwmp.WanProvision.Script says what a flow means, and the run of the machine
--   takes one unit of fuel for each request: one more than the active steps is enough.
-- - Auth.Digest: internal/auth/digest.go, with MD5 as an argument. The middleware takes the time and the
--   nonce that its challenge would carry; a sequence of requests is a list of such calls.
-- - Task.Model, Task.Queue: internal/task/model.go and queue.go. Redis and the JSON codec are an interface
--   whose calls may fail; the laws of the queue assume of it what Redis documents.
-- - Cwmp.WanParameters: internal/cwmp/wan_provisioner.go, the parameters and credentials of WAN tasks.
-- - Cwmp.SessionManager, Cwmp.Adoption, Cwmp.Dispatch: internal/cwmp/session.go, the tables of
--   sessions, adoptInFlightBySerial over a heap of sessions, so that aliases show, and the loop of
--   dispatchTask and dispatchNextOrClose, which takes one pending task off in each round. What
--   executeTask makes of a task, and whether the queue stores an update, are arguments of the loop.
-- - Cwmp.Soap: the entries of a SetParameterValues request in internal/cwmp/soap.go, in their order and
--   with their types. sort.Slice is the record Sorting.Sorter, with what Go promises of it.
-- - Cwmp.Summon: internal/cwmp/session.go, the phases of a summon and the batches of a full one. The
--   device is a function from the names asked for to parameters; as much fuel as there are leaf names
--   is enough for all batches.
-- - Cwmp.Responses: internal/cwmp/session.go, the handlers of the responses without values, of faults and of
--   downloads, on a session with its queue. What they do outside is a list of effects. What executeTask
--   leaves in the session is an argument, applied for each task that a dispatch executes.
-- - Task.Payload, Task.Executor: internal/task/model.go and executor.go, with the JSON codec as functions
--   that may fail. The code tests numbers of payloads only for being positive, and they are natural.
-- - Cwmp.ExecuteTask, Cwmp.WifiUpdate, Cwmp.WanTask: internal/cwmp/session.go, what executeTask makes of a task.
--   Cwmp.LegacyFlow: the flows with fixed steps in internal/cwmp/wan_provision.go.
-- - Cwmp.InformParams: internal/cwmp/session.go, what extractInformParams reads, with fmt.Sscanf as an argument.
-- - Cwmp.VlanChain, Cwmp.Restore, Cwmp.Reset, Cwmp.Defaults: internal/cwmp/session.go, a factory reset seen in an
--   Inform, the tasks that restore WiFi and WAN from a snapshot, and the default parameters of drivers. What is
--   given to Enqueue is a list of tasks; the mapper that is rebuilt from a snapshot is an argument.
-- - Datamodel.Addresses, Datamodel.WifiBands: internal/datamodel/instances.go, which addresses are public,
--   with net.ParseIP as an argument, and the band of an SSID by its number. Signs of SSID numbers are left out.
-- - Datamodel.Discovery: internal/datamodel/instances.go, the PPP interface and the chain of links of a TR-181
--   device. A regular expression is a list of its literal texts and numbers.
-- - Datamodel.Validator: internal/datamodel/validator.go, with time.Parse as an argument.
-- - Cwmp.PortMappings, Cwmp.Traceroute: internal/cwmp/results.go, port mappings and hops of a route.
--   A map is a list that is iterated from its last entry. Text.Numbers has what strconv does there, for an
--   int of 64 bits.
-- - Parameter.Storage, Parameter.Like: internal/parameter/postgresql.go and redis_cache.go, with the procedures of
--   scripts/schema-postgresql.sql. A table is its rows; a call is answered, refused, or done with its answer lost,
--   and a sequence of calls says which.
-- - Parameter.Traffic: internal/parameter/traffic.go, with natural numbers for times and counters.
-- - Api.Tasks: internal/api/handler/task.go. A body is read by a decoder; the lookup of the device and
--   the queue are arguments.
--
-- Not modelled: reading YAML files, XML encoding and decoding, net/http, MongoDB, the
-- connections to PostgreSQL and Redis, and the logger. Instance numbers and
-- indices are natural numbers, but for those that are read of port mappings.
pub mod Parameter
pub mod Prelude
pub mod Text
pub mod Dict
pub mod Sorting
pub mod Datamodel
pub mod Schema
pub mod Task
pub mod Cwmp
pub mod Auth
pub mod Api
