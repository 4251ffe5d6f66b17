-- ===== src/Lib.antt =====
-- ZMF, the ZeroMQ module framework: modules that find each other by UDP broadcasts and exchange
-- events and requests over ZeroMQ.
--
-- The parts and the files that model them:
-- - Data: include/zmf/ModuleUniqueId.hpp, ModuleHandle.hpp, ModuleState.hpp, MessageType.hpp,
--   ZmfMessage.hpp, ExternalRequestIdentity.hpp, the reply types of ZmfOutReply.hpp, and
--   src/data/ModuleHandleInternal.hpp. A byte string is a list of numbers; a handle has a number
--   that stands for the object, since handles are shared pointers whose timeout field is written
--   through.
-- - Registry: include/zmf/PeerRegistry.hpp and src/discovery/PeerRegistryInternal.cpp. The six
--   maps are six association lists (Prelude/Map), one function per operation (addModule is
--   add_module) and one per query (Registry/Queries). Registry/Index and Registry/Consistent are
--   the invariant, Registry/View the abstract directory.
-- - Discovery: src/discovery_implementation/PeerDiscoveryService.cpp. The state of the core that
--   is told of changes is a parameter, with the call peerStateChange as an argument.
--   Discovery/Timeouts has a round of multicastLoop and Discovery/Runs the loop over a list of
--   its rounds.
-- - Module: src/AbstractModule.cpp and include/zmf/AbstractModule.hpp.
-- - Dispatcher: src/core/ModuleEventDispatcher.cpp. The messaging service (src/messaging/
--   IZmfMessagingService.hpp) is a record of operations that may throw, and the functions of the
--   module are another; both are section parameters.
-- - Core: src/core/ZmfCore.cpp. Core/Switch enables and disables the module, Core/Loop is the
--   thread, Core/Requests the commands. The dispatcher is the core that the discovery service
--   tells. Core/Runs is the relation of the steps of all threads of an instance, in any order.
-- - Messaging: src/messaging_implementation/ZmqZmfMessagingServiceImplementation.cpp and .hpp,
--   the messaging service that the dispatcher uses. Messaging/Peers has the connections,
--   Messaging/Topics the subscriptions and events, Messaging/Requests the requests and replies,
--   and Messaging/Poller the start, the stop, the thread and the record of operations for the
--   dispatcher (zmq_service). Messaging/Poller/Runs is the relation of its steps, calls and
--   rounds of the poller in any order.
-- - Console: src/ZmfConsole.cpp, the loop on the lines that are entered. The tokenizer of Poco,
--   with the hypothesis IsTokenizer, and the controller of the instance are parameters.
-- - Reply: include/zmf/ZmfOutReply.hpp, the reply object of a module with the calls of
--   sendFutureReply and injectService on it, and include/zmf/ZmfInReply.hpp, the handles of a
--   request that was sent.
-- - Config: src/config/ConfigurationProvider.cpp and .hpp, the typed lookups. The property file
--   as Poco has parsed it is a parameter, with the hypothesis IsPropertyFile that a key that is
--   there is found.
-- - Network: src/util/NetworkUtil.cpp and getIp of the messaging service. The interfaces of the
--   host are a parameter.
-- - Instance: src/instance/ZmfInstance.cpp and include/zmf/ZmfInstance.hpp, the start with
--   options.
-- - Prelude: tests, lists, maps, decimal digits and integers that the parts share.
--
-- The core owns the discovery service, which owns the registry, and the dispatcher, which owns
-- the subscriptions and the queues. A thread is a function that does one round of its loop; the
-- calls of the other threads come between the rounds. The mutex of the module is a Boolean, and
-- waiting for a mutex that is held is a result of its own (waits_for_mutex, blocked), as is an
-- exception that leaves a thread (thrown). The mutex of the subscriptions is held while an event
-- is delivered, so a callback acts on the state of the module only, and neither subscribes nor
-- unsubscribes. Other mutexes guard single operations and are not modelled.
--
-- The sockets of ZeroMQ are lists of what was sent by them, a message on a socket is an argument
-- of the round that receives it, and a future is the list of the answers that it got. How zmqpp
-- and protobuf write numbers and ids is a parameter (Wire), with the hypothesis that what is
-- written is read back (IsWire); what the host does, the endpoints that bind gives, the own
-- address (Network has its choice) and whether a connection is taken, is another (Host). An
-- exception that leaves a call or the thread of the poller is none. std::stoi
-- (Prelude/Decimal/Parse) reads the port of an endpoint and the ids of the console.
--
-- Bounds and fuel: the 16-bit and 32-bit casts of the discovery service and the 32-bit
-- subscription counter and the 64-bit request id keep their wrap-around, and a port is cut to 16
-- bits; appendMatch8 to appendMatch64 cut their numbers to bytes. delivery_rounds takes
-- the number of its rounds. No definition runs on fuel: the decimal digits (Prelude/Decimal)
-- recurse on accessibility, everything else on its lists.
--
-- In Core/Runs a round of a loop is one step, but inside enableModule and disableModule, outside
-- of the mutex of the module, other threads act on the dispatcher (others of Switches), between
-- onEnable and the lock and between the unlock and onDisable. A request that is dropped there
-- leaves the mutex locked (Core/Loop/Stuck, Core/Loop/Race), so that the theorems on runs assume that none is; and
-- onDisable then hangs on a delivery thread that waits for the mutex (hangs, blocked). The
-- notifications that are left at the join are dropped with the queues; those that the thread still
-- delivers before it sees the end are acts of others. In Reply/Out the
-- calls interleave at the mutex of the reply object. What the
-- discovery service does while startInstance waits for it is a function of its state, in
-- Instance/Hears a run of its loop.
--
-- Not modelled: the options of the ZeroMQ sockets, the building of the objects in ZmfInstance,
-- what the console prints, logging, sockets, sleeping, the joining of the other threads, the futures
-- that a module waits on, the protobuf classes (generated), examples, templates and tests.
pub mod Prelude
pub mod Data
pub mod Config
pub mod Network
pub mod Registry
pub mod Reply
pub mod Discovery
pub mod Module
pub mod Dispatcher
pub mod Messaging
pub mod Console
pub mod Core
pub mod Instance
