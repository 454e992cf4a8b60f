-- ===== src/Lib.antt =====
-- The discovery client of NVMe over TCP, modelled on its Go source.
--
-- The client keeps a cache of discovery servers, from configuration files and from the referrals
-- that the servers send, and a service that keeps one live connection to each cluster of servers. A
-- change of the cache is sent to the service as a map of connections; an event on a live connection
-- makes the service ask for the discovery log page, and hand its referrals to the cache.
--
--   Prelude       shared names: tests, equality, lists, maps, signed integers
--   HostApi       pkg/hostapi/host_api.go: the data of a discovery request and of a log page
--   Collections   pkg/collections/functions.go: the functions on slices of strings
--   AppConfig     model/app_config.go: `verifyConfigurationIsValid`, with `IsValid` of pkg/logging
--   ClientConfig  pkg/clientconfig: Entry is `Entry` of conf_parser.go and Parser its `parse`;
--                 Configgen is `CreateEntries` of configgen.go with the printing of
--                 pkg/commonstructs; of cache.go, Connections has the connections and their maps,
--                 Cache the struct `cache` with `addEntry` and `deleteEntry`, Referrals
--                 `HandleReferrals`, and Notification `notifyChange` and `fileAdded`; Startup is
--                 `sync` with `createReferralsFile` and `useInternalJson`; the modules below Cache
--                 prove the properties of the cache
--   Service       service/service.go: the case of `Start` for a notification, `removeConnections`
--                 and `addConnections`; Service.Discovery has `Discover`, `getLogPageEntries`,
--                 `getLiveConnection`, `reconnectToCluster` and the case of `Start` for an event
--   Nvme          pkg/nvme: Sgl is the scatter list of sgl.go, its writer and its reader; LogPage
--                 the command for a part of the log page and its `execute`, of discovery.go;
--                 Controller the controller of controller.go with the commands that change it, of
--                 fabrics.go and discovery.go; Queue the queue of nvme_queue.go, from a command to
--                 its completion; Tcp the loop of tcp_queue.go over the frames of a connection
--   NvmeClient    pkg/nvmeclient/nvme_client.go: the options of a connection, the command of
--                 `nvmeGetLog`, `Discover` and `ConnectAllNVMEDevices` over a parameter for the
--                 kernel
--   NvmeHost      pkg/nvme/nvmehost, the host: Commands has the requests that it sends, Queue the
--                 queue of tcp_queue.go with its outstanding requests, Session the requests of a
--                 discovery, of tcp_queue.go and tcp_client.go, Pool the table of nvmehost_impl.go;
--                 Target is the sending side of pkg/nvme/tcp_queue.go, as the server of the host
--   System        the cache and the service together: the loop of `Run` over the events of the
--                 directory, the messages of `notifyChange` that wait for the service, and every
--                 order in which these and the service's own work happen
--   Tests         runs on concrete inputs
--
-- An operation is a function from the state before to the state after and its results. What a Go
-- function does besides, such as a file that it rewrites or a goroutine that it starts, is a field
-- of its result. An error that is only logged is dropped, as in the source.
--
-- Pointers. Entries and connections are shared by pointer. A pointer is a number, and the object of
-- a connection stands in a heap, a map from numbers; an entry stands in the cache's list beside its
-- pointer. `reflect.DeepEqual` of two connections is equality of pointers: each holds a `cancel`
-- function, and functions that are not nil are never deeply equal.
--
-- Maps. A Go map is an association list, read by its laws alone. A loop over a map visits it in any
-- order: where the order could matter the theorems take the orders as arguments, related by Perm. A
-- message to the service holds the maps of the cache themselves, so a change of a map after the
-- message was sent is seen by the service when it receives the message.
--
-- Concurrency. The cache and the service each handle one thing at a time, in one goroutine; a
-- handler is one step. Locks, channels, logs and metrics are not modelled; of contexts and timers
-- only what the last paragraphs name, and that the timer of the host's `Discover` stops its client.
-- The random order of `GetRandomConnectionList` is an argument. The host's `Discover`, which talks
-- to a server, is a parameter, over a state of its own.
--
-- Loops are structural recursion on a list. Two loops run on fuel. That of `getLogPageEntries` has
-- as much as there are records and the rounds besides that the 10 second timer of `Discover`
-- allows, an argument: the request after those returns the error of the cancelled context. So the
-- timer is taken to allow one round for each record. That of `NewScatterList` has the number of
-- bytes asked for: each round takes off at least one of them, if the buffer length is not 0 (with 0
-- the loop does not end). The int of an address is a signed integer without bounds, since no
-- arithmetic is done on it; a length is a natural number; the words of the log page's command wrap
-- around at their widths.
--
-- Of pkg/nvme the packing of structs, done by the vendored package struc, and the discovery
-- subsystem's `FillDiscoveryLogPage`, an interface that the repository does not implement, are
-- parameters. What is relied on are the packed sizes, and that the subsystem gives the entries from
-- the offset on. The sockets and the files of the ioctl client are not modelled, nor are the
-- goroutines of the host after a discovery; what a server answers is in the host's inbox as soon as
-- the request is sent; of the goroutines of a controller, the timer's expiry and the answer to a
-- notification are steps of their own. Of pkg/clientconfig the operating system's answers, the
-- functions of the Go library that the parser calls and the JSON package are parameters; of the
-- JSON package it is relied on that it reads what it printed.
pub mod Prelude
pub mod HostApi
pub mod Collections
pub mod AppConfig
pub mod ClientConfig
pub mod Service
pub mod Nvme
pub mod NvmeClient
pub mod NvmeHost
pub mod System
pub mod Tests
