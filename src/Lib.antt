-- ===== src/Lib.antt =====
-- rewsr-maxfields collects facts about bare-metal servers from many sources, merges them into one
-- record per server, stores every record, and serves curated views of the latest.
--
-- The parts and their files (paths from the root of the repository):
-- - Facts: facts/types.go (Facts/Types), facts/infer.go (Facts/Infer) and facts/merge.go (Facts/Merge,
--   Facts/Build). `BuildServerFacts` folds `mergeInto` over what the collectors return, then infers
--   the capabilities and the health.
-- - Fleet: fleet/fleet.go. `Aggregate`, `FindCapable` and, in Fleet/Firmware, `FirmwareSpread`.
-- - Api: api/views.go, and in Api/Handlers api/handlers.go. `PublicView` and `HardwareView` are
--   functions of the facts; a handler is a function from what `GetLatestFacts` answers to a response.
-- - Store: store/store.go and store/list.go as tables of rows in the order of insertion, and in
--   Store/Provisioning store/provisioning.go as a map by server id. An operation takes the table and
--   returns its result, with the new table where it writes.
-- - Refresh: refresh/refresher.go. A batch is a list of visits, and `Start` is a loop over the ticks
--   that it waits for up to the end of the context.
-- - Collectors: collectors/linux_tee.go, linux_iommu.go, linux_hugepages.go, linux_kernel.go and
--   provisioning.go, one file each, as functions of a host (Collectors/Host): the files, directories and
--   commands that can be read. What they put into `Raw` is in Collectors/Sections.
-- - Collectors/Numactl, NodeDirs and Numa: collectors/linux_numa.go. Pointers into a Go slice are slots
--   with a flag that `append` clears when it moves the slice; when it moves is a parameter.
-- - Collectors/Bond: collectors/linux_bond.go. The runner is nil or a record of a look-up and a run, and the
--   decoding of the links is a parameter.
-- - Collectors/Lspci and Pci: collectors/linux_pci.go. Gpu: linux_gpu.go. Devinfo and Rdma: linux_rdma.go. Lldp:
--   linux_lldp.go, over decoded JSON values. Ipmi: ipmi.go. Offload and NicOffload: linux_ethtool_deep.go. Nvme:
--   linux_nvme.go. Smbios: linux_smbios.go. Cpu, Disk, Nic and LinuxHost: the four files of the host
--   collector. Redfish: redfish.go, with net/http as a record of functions.
-- - Collectors/Wiring: collectors/wave2.go and `buildCollectors` of cmd/rewsr-maxfields/main.go, the lists of
--   collectors that Facts/Build runs over.
-- - Serve: the environment of `serve` and the seeding of provisioning records in cmd/rewsr-maxfields/main.go. Scan:
--   its command line, and the scan of the local host with the report that it prints.
-- - Base and Text hold what Go's language and standard library are used for: maps, `int`, texts, and the
--   functions of `strings`, `strconv` and `sort`.
--
-- The parts meet as in the code: Refresh calls Facts and Store, Api calls Store, Fleet reads facts, Scan runs
-- Facts over the collectors of Wiring, and Serve gives Refresh its interval.
--
-- Conventions. An `int` has 64 bits and wraps around (Base/Int). A text is a list of code points. `strings.ToLower` and
-- `strings.ToUpper` are modelled for ASCII and for the letters that fold into it; they leave any other letter as
-- it is, which Go maps to its other case. A nil
-- slice and an empty one are the same list. A map is an association list of which proofs use lookups
-- only. Time is the number of nanoseconds since Go's zero time.
--
-- Parameters. The values in `Raw` have an unknown type V, which is Section where the collectors are known. The clock, the answers of the collectors and
-- the errors of the database are arguments of the operations that meet them. `encoding/json` is a pair
-- of functions that encode and decode facts; where a theorem needs the round trip of a value, it says so. Facts
-- with a struct in `Raw` do not meet that premise, since the decoder gives a generic map in its place (fleet/fleet.go
-- reads both forms); facts of which `Raw` holds texts and Booleans can meet it.
-- The row that SQL picks from `ORDER BY observed_at DESC LIMIT 1` is a function of which the law
-- IsNewestPick is known: some newest row, if there is a row. `decodeRaw` is a pair of decoders.
--
-- A float is the pattern of its 64 bits, and what `strconv.ParseFloat` reads is a parameter.
--
-- Every loop runs over a list and is a structural recursion, so fuel stands only in three places: the loop
-- over the fields of an lspci line, which has a round for each character and one more (Collectors/Lspci/Loop), the printing
-- of an `int`, whose twenty digits are enough by Text.Decimal.RoundTrip, and the exchange sort of the node
-- ids, which runs one pass for each element as the code does.
--
-- Not modelled: the running of commands (runner), the HTTP routing and encoding, the opening of
-- databases, signals, logging, and the C probes and stores.
pub mod Base
pub mod Text
pub mod Facts
pub mod Fleet
pub mod Store
pub mod Api
pub mod Refresh
pub mod Collectors
pub mod Serve
pub mod Scan
