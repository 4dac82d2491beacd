-- ===== src/Lib.antt =====
-- Verification library of the network manager, a Go daemon that edits the DHCP and routing
-- configuration of an OpenWrt router.
--
-- The program's core is a service (internal/netcfg/service.go, policyrule.go, dns_service.go,
-- ipv6_service.go, iface.go) that validates records (internal/netcfg/validate.go), reads and replaces
-- whole collections through an interface (internal/netcfg/backend.go), which a store of JSON
-- (internal/netcfg/backend_store.go) or the UCI system implements, and announces each change on
-- a bus (internal/eventbus/bus.go). Addresses, masks, MAC addresses and the lines of dnsmasq's
-- files are read by pkg/netutil/netutil.go.
--
--   Prelude       tests on native numbers, lists, texts as lists of bytes, integers
--   Go            what the code uses of Go's standard library: strings, strconv, net.ParseIP, net.ParseMAC
--   Netutil       pkg/netutil/netutil.go: `IPv4ToUint32` is `ipv4_to_uint32`, and so on
--   Netcfg.Types, Netcfg.Validate
--                 the records and their validators, which return the changed record or an error
--   Netcfg.Names  names of UCI sections, fresh ids and small readers of texts
--   Netcfg.Backend
--                 the interface of a backend as a record, and the contract `Lawful` of its reads and
--                 writes
--   Netcfg.Exec   methods as functions of a state that may fail; what was changed before an error stays
--   Netcfg.Service
--                 the service: `World` is the backend's state, the count of ids drawn and the published
--                 events. `Collection` is the shape that the read-modify-write methods share; Servers,
--                 Statics, Leases, AccessList, Routes, PolicyRules, Dns (dns_service.go),
--                 V6 (ipv6_service.go) and Ifaces (iface.go) are the methods, and Whole puts them
--                 together, but for the lines of Ifaces
--   Netcfg.Store  the store backend; Files has the calls of package os that a flush makes, whose
--                 outcomes are a parameter, and Durable what is in the file
--   Eventbus      the bus as a state machine, with the ring of recent events and the channels; a
--                 publication is three steps, which interleave with those of others
--   Backup        internal/backup: the records (model.go), checks (validate.go), object keys (path.go),
--                 and of scheduler.go the retention and the scheduler as a state machine
--   Examples      the theorems at concrete inputs
--
-- The methods that replace a collection hold the service's mutex, so each is one step. Ids come
-- from a random source, which is a function from the number of the draw. The search for a free
-- address counts with a uint32 and runs on fuel; fuel for each address from its start to its end
-- and one more is enough. The search for an id of an IPv6 line runs one round for each id in use
-- and one more, that for an id of a line the 62 rounds of the source, the cleaning of a key one for
-- each character, and `itoa` one for each unit of its number. A channel is the list of its pending
-- events; a receive takes the first. Times are numbers that come from outside.
--
-- Not modelled: the UCI backend, the lists of network cards, the overview, the import and export of
-- a whole state, the lists of terminals and neighbours, the HTTP handlers, the transports of backups,
-- logs, speed tests, dynamic DNS and self-update. They come later or are input and output.
pub mod Prelude
pub mod Go
pub mod Eventbus
pub mod Netutil
pub mod Netcfg
pub mod Backup
pub mod Examples
