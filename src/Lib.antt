-- ===== src/Lib.antt =====
-- Submariner connects the networks of Kubernetes clusters: each cluster has a gateway, which publishes
-- itself as an Endpoint, finds out by NAT discovery at which IP each remote gateway can be reached,
-- and then has its cable driver build a tunnel, a cable, to it. This library models that path.
--
--   Endpoint      pkg/apis/submariner.io/v1/endpoint.go and types.go: the spec of an endpoint, its
--                 configuration entries, its IPs per family, Equals (Endpoint/Ips, CableNames, Config,
--                 Equality).
--   Discovery     pkg/natdiscovery. Remote is remote_endpoint.go, the state machine of one remote
--                 endpoint; Messages is proto/natdiscovery.proto; Sending is request_send.go;
--                 Answering is request_handle.go; Service is natdiscovery.go and response_handle.go,
--                 the table of remote endpoints. Moves, Polling, Invariant, History, Progress,
--                 Requests, Exchange and Unsent hold the theorems.
--   CableEngine   pkg/cableengine/cableengine.go over the interface of pkg/cable/driver.go. Pending,
--                 Awaited, Replace and Lifecycle hold the theorems.
--   PacketFilter  pkg/packetfilter: Rules is the rules of packetfilter.go, Adapter is adapter.go; Chains
--                 says what a driver that works does. Prepend, Several and Update hold the theorems.
--                 Specs is the rules as arguments of the iptables command and back, IpTables the driver
--                 (both iptables/iptables.go); Specs/Parses and RoundTrip, Simulation and
--                 IpTables/Listing, Refine and Hooks hold the theorems.
--   Cidr          pkg/cidr/iputil.go: CIDRs that contain others or overlap them. Addresses and Laws hold
--                 the theorems.
--   Datastore     pkg/controllers/datastoresyncer: which Endpoints of the broker are accepted; in
--                 Deletion, which resources are deleted; in Gateway, the global IP of a gateway node
--                 (gateway_handler.go), with the update of the local endpoint of
--                 pkg/endpoint/local_endpoint.go. Accepted, Separation and
--                 Exclusive hold the theorems.
--   Libreswan     pkg/cable/libreswan/preferred_server.go: which side of a connection is the server.
--   Pinger        pkg/pinger: the state of one pinger (pinger.go) and its statistics (statistics.go), and in
--                 Controller the pingers of the remote endpoints (controller.go). Losses, Bounds and
--                 Controller/Running and Followed hold the theorems.
--   EventController  pkg/event/controller: how one handler of pkg/event/handler.go learns of endpoints
--                 and of the gateway status of its node. Transitions, Missed and Remotes hold the
--                 theorems.
--
-- The parts meet as in the program: `install_cable` counts a request and hands the endpoint to
-- `add_endpoint` of NAT discovery; the service publishes a NatEndpointInfo on its ready channel; the
-- engine takes each of these through `install_cable_with_nat_info`. The event
-- controller and the packet filter serve the route agent and globalnet, and meet these parts in no
-- operation; the adapter of the packet filter runs over the iptables driver. The datastore syncer lets
-- in the Endpoints that these parts act on, by the tests on CIDRs.
--
-- State is passed explicitly, and each operation of the source, which holds a lock while it runs, is
-- one step; the histories of the service and of the engine are sequences of such steps in any order. A
-- method of the source in camel case has the same name here in snake case. Errors are values; text
-- that is only logged is left out. Maps are association lists, in the order of which a loop over a Go
-- map runs; a nil map and an empty one are the same. Times are nanoseconds, or the seconds of a
-- creation time; request numbers and the numbers of the statistics wrap
-- around at 2^64, ports are checked against 16 bits. Loops are
-- structural, but for the loop of FromRuleSpec over the arguments of a rule, which has as much fuel as
-- there are arguments; each round takes one at least, so that this is enough.
--
-- Parameters stand for code that is not in the repository or talks to the outside: `NetLib` for the
-- parsers and the equality of IPs of the net packages, `Surroundings` for routes, the protobuf encoder
-- and the socket, `CableEngine.Driver` for a cable driver and `PacketFilter.Rules.Driver` for iptables
-- or nftables, each with a state of its own; `IsChain` has the laws of a packet filter that
-- works. `PacketFilter.IpTables.Library` stands for the go-iptables library, with `KeepsSpecs` and
-- `AddsOnce` for what the command and the library document; the parser of CIDRs is an argument, which
-- answers the prefix of a net; `Federators` stands for the datastores of the admiral library; the
-- square root of floating point numbers is an argument, and so are `MustUpdate` of admiral and, with
-- `Counts`, how the pro-bing library counts a packet after `OnSend`; and `EventController.Handler`
-- stands for the handlers of events, each with a state of its own. A call through a nil driver, which
-- panics, is an error value of the model.
--
-- Not modelled: the goroutines and the bound of the ready channel, the sockets, the cable drivers
-- but for libreswan's choice of the server, the nftables driver, the other controllers on the Kubernetes API, globalnet, and the route agent.
pub mod Base
pub mod Endpoint
pub mod Discovery
pub mod CableEngine
pub mod Cidr
pub mod Datastore
pub mod EventController
pub mod Libreswan
pub mod PacketFilter
pub mod Pinger
