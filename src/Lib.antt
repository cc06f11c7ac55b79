-- ===== src/Lib.antt =====
-- singbox-deploy: a hub deploys sing-box on itself and on spoke nodes. It keeps registries of
-- nodes, of subscription groups and of relay links, each a tree of numbered directories with one
-- small file per field; a relay link fronts a landing node with ports of another node. On every
-- node a monitor counts the traffic and stops sing-box when the quota of a monthly cycle is
-- spent.
--
-- State models internal/state. State.Entries is entries.go: `saveEntryDirsUnlocked` stages a tree
-- and puts it in place by two renames, `loadEntryDirsUnlocked` reads the entries in the order of
-- their names, `TransactEntryDirs` is a load, a mutation and a save. The locks, the listing of the
-- tree, each read of a field file and every call of a save succeed or fail as a field of `Faults`
-- says, and the disk has a live, a staged and a set-aside tree. State.Entries.Order has the order
-- of the names, Load what a load returns, Safety what a failing save leaves, Transact what a
-- transaction does, and Runs any run of transactions: a registry gives it its encoding, its
-- operations and its invariant. `ReadEntryValue` takes a field file that cannot be read for a
-- missing one, and a transaction then stores the entry without it. The runs of Runs are therefore
-- those in which the reads of the field files succeed, whatever other call fails. Update is
-- `UpdateEntryFields`, whose reads and locks succeed. State.Pair is `writeFilePair` of store.go.
--
-- Relaylinks models internal/relaylinks/relaylinks.go on decoded lists: `Set`, `Remove`,
-- `DropNode` (`set_link`, `remove_link`, `drop_node`), `validate` and the queries. Its children
-- are Validity and Validate (what is accepted), Registry (the rules under each operation), Codec
-- (`encodeLink`, `decodeLink` and the forwards), Stored (the registry on the disk of
-- State.Entries), Ports with Draw and Allocate (`randomRelayPort`, `AllocateForwards`), Queries
-- and Hops.
--
-- Subgroups models internal/subgroups/subgroups.go in the same way: `Add`, `Update`, `Remove`,
-- `DropMember`, `AddMember` and `EnsureSeeded` (`add_group` to `ensure_seeded`), with the IDs
-- that `transact` normalizes first. Rules has what `validateUnique` accepts and the IDs, Registry
-- the rules under each operation, Stored the registry on disk, Members who is in a group, Forms
-- `Load`, `AliasConflict` and `SaltConflict`.
--
-- Nodes models internal/nodes/nodes.go: Nodes has the record and `validateUnique`,
-- Nodes.Operations `Add`, `Update`, `Mutate` and `Remove` with the IDs that `normalizeNodeIDs`
-- assigns, Reorder `Reorder`, Codec `encodeNode` and `decodeNode`, whose values are read back in
-- Values and RoundTrip. Rules has what is distinct, Registry the rules under each operation,
-- Stored the registry on disk. Status is `MutateStatus`, which writes single fields by
-- `UpdateEntryFields` (State.Entries.Update). The clock, the parser of IP addresses and the
-- digest are parameters.
--
-- Relay models the data plane of a relay node, internal/relay/relay.go and apply.go. Relay is the
-- job and `Validate`, with what it accepts in Validity; Rules is `Ruleset`, as rules and as text,
-- and Dispatch what the kernel does with them; Firewall the commands of
-- internal/system/firewall.go. Applier and Apply are the calls and the operations of the
-- `Applier` (`Apply`, `Reapply`, `Suspend`, `Resume`, `Clear`) on the file of the job, the
-- kernel's table, the unit and the commands that were issued; any call may fail, with or without
-- its effect. Effects, Remembered, Installed and Works have what they leave. Quota is the
-- `QuotaController` of quota.go, which joins it to the service of Monitor.Enforce, and Readers
-- what the monitor reads from the job.
--
-- Certmgr models internal/certmgr/certmgr.go and credentials.go: `NormalizeDomain`,
-- `DomainCovers`, the registry of credentials and `SelectCredential`. Wgnet is `AllocateSpokeIP`
-- of internal/wgnet/config.go on `UsedIPs` of the registry of nodes. The conversion of
-- international names and the parsers of net/netip are parameters.
--
-- Monitor models the quota of internal/monitor. Monitor.Quota is the limits and packages of
-- quota.go, in 64-bit words. Monitor.Cycle is `CycleStart` and `NextCycleReset` on civil times;
-- Boundary, Around and Bracket have the days on which they are the boundaries next to a time,
-- Overflow those on which `AddDate` leaves the calendar. Monitor.Enforce is `reconcileQuota` and
-- `setStoppedByQuota` of server.go and `ReleaseQuotaStop` of quota_release.go;
-- Monitor.Enforce.Ownership has the runs of rounds, restarts, releases and stops and starts by
-- others.
--
-- Common has the Boolean tests, lists, rearrangements, searches by index, errors as values,
-- integers, and the functions of the package strings that the code uses, on texts as lists of
-- character codes.
--
-- Bounds. The search for an overlay address has as many rounds as its subnet has addresses. Upper
-- and lower case are those of ASCII. A decimal number is printed with one unit of fuel more than
-- its value, which its digits never use up. The search for a port makes at most as many rounds as
-- there are ports in its range. A registry has at most 999 entries where the order of its names
-- matters. A run of transactions is sequential, as the lock of a registry makes it. Times have
-- whole seconds and years after 0; reset days are not negative.
--
-- Not modelled: the hub's identity, the issuing and renewal of certificates, the rest of the
-- overlay network, downloads and updates, the generated subscriptions, the database queries, the
-- HTTP and SSH transports, the deployment steps and the user interfaces. Logging, the texts of
-- the errors and file modes are left out. Random bytes, the clock and the results of the
-- operating system are arguments.
mod Common
pub mod State
pub mod Monitor
pub mod Subgroups
pub mod Nodes
pub mod Relay
pub mod Certmgr
pub mod Wgnet
pub mod Relaylinks
