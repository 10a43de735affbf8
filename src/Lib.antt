-- ===== src/Lib.antt =====
-- The verification library of chatter: models of its command language, its configuration,
-- its services, its OSPF parts and its synchronisation, and theorems about them.
--
-- The program. `chatterc` is a command line client. Its commands are declared as texts such as
-- "show <ip|ipv6> A.B.C.D" (chatterc/commands/commands.go): a parser turns a declaration into a
-- graph of nodes, the graphs of all declarations are merged, and a line is matched against the
-- graph, disambiguated, completed, or run through the handler of its last node. The daemon reads an
-- OSPF section of its configuration (config/ospf.go), keeps an interface for each configured
-- network (ospf/ospf.go, ospf/interface.go) and link-state advertisements with their checksums
-- (ospf/lsdb.go). The configuration (config/config.go) says which services run; a graph of their
-- dependencies (config/graph.go) gives the order in which the services manager
-- (chatterd/services/service_manager.go) starts them, and each new configuration replaces them all.
-- Its parts tell each other of changes by the notifiers and the queue of sync/.
--
-- Files.
--   Base, Base/*: Boolean tests, lists, integers, Go strings and their UTF-8, results.
--   Commands/Node: `Node`; a pointer is a place in a list of nodes, the heap, because several nodes
--     share a child. A function value is a tag with its signature.
--   Commands/Parser: `commandParser`. The state is what is left of the text, and the position.
--     Parser/Moves, Fine, Graph and Total prove that it is total.
--   Commands/Params: `updateParamTypes` and `ParseDeclaration`.
--   Commands/Merge: `mergeWithPath`, `Merge`, `MergeWithoutExplicitChoiceRestrictions`.
--   Commands/Leaves: `Leaves`, the setters and `Match.Invoker`.
--   Commands/Matching: `matchTokens`; a `*Match` is the list of its links. Matching/Paths says what a
--     path of the graph is; Sound and Complete compare the two, Arguments and Total show that the
--     search returns.
--   Commands/Disambiguate: `Match`. Disambiguate/Rounds, Exact, Returns and Input are about its loop.
--   Commands/Completion, Commands/Address: the completions of a line, and the tests whether a field
--     begins an address. Completion/Options and Sorted are about the options.
--   Config/Ospf: `parseOSPFConfig`, on the tree that the YAML library leaves. The entries of a map
--     come in some order, and every theorem holds for each order.
--   Config/Ospf/Methods: `shouldRun`, `dependencies`, `copy` and `InterfaceConfigs`.
--   Config/Service, Config/Graph: the names of the services, and `topologicalSort`. The map is the list of
--     its entries, and the order of `range` an argument. Graph/Visits, Ends, Sorted and Order are about it.
--   Config/Bootstraps: `parseConfig`, `loadConfig`, `Bootstraps` and `Copy`. Bootstraps/Shape and Plan say
--     which services an accepted configuration starts, Copies that a copy is equal.
--   Services/Manager: `registerServiceType`, `start`, `Get` and `RunningServices`. Manager/Steps has the loop
--     of `Run` and the goroutines of the services as a step relation: each step of one of them is a step
--     of the system, in any order; a service that was stopped may end at any time or never. Manager/Stuck
--     and Failed are about states without a way out, Manager/Serving about what runs behind a round.
--   Client/Prefix, Client/Layout, Client/Tab: `commonPrefixLen`, `wrap` and `autocompleteWithTab`, with the
--     panics of slices and lengths out of range.
--   Client/Table: `tabulate`, with its writes into rows and widths by index. Table/Widths, Stacked,
--     Filled, Least and Aligned are about the loops over cells, over items and over the lines printed.
--   Client/Session: `runLine`, `Register`, `Document` and `RegisterAutocomplete`. What a handler does is its own.
--   Client/Pager: `Write` and `paginate`; the keyboard is the list of what each read delivers, and a
--     function says which writes on the terminal fail.
--   Ospf/Instance: `NewInstance` and `updateInterfaces`, with what is done to each interface as a list of
--     actions; a send to an interface whose loop has ended never returns. Instance/Keys and Update say
--     which interfaces there are behind it, Agree in what state.
--   Ospf/Lsa, Ospf/Checksum: `Compare`, and the Fletcher checksum of an advertisement.
--   Ospf/Interface: `newInterface`, `handleEvent` and the loop of `Run` on its inputs in order.
--   Sync/Queue: the queue of sync/queue.go, as the contents of its two channels.
--   Sync/QueuedNotifier, Sync/Notifier: the notifiers. Each holds its state in a channel of capacity 1,
--     so its calls are atomic steps; runs of calls are data types.
--   Tests, Config/Ospf/Tests: the theorems at concrete inputs.
--
-- Bounds. Functions that follow pointers or nest take fuel, and report `out_of_fuel`. For the parser,
-- fuel above the number of bytes is enough, and Parser/Total proves it: each level of nesting and each
-- round reads a byte. For the matching, the height of the graph is enough (Matching/Total); for
-- the sort, one more than the services that the graph names (Graph/Ends); for the pager, one more than
-- the keys or the bytes of a write (Pager/Prompt and Written). The numbers of the configuration are
-- unbounded where the code has an int, and are compared with the bounds of its types;
-- sequence numbers of notifications wrap at 2 ^ 64.
--
-- Not modelled. netip.ParseAddr, the YAML library, os.ReadFile and the builders of services are
-- parameters, about which nothing is assumed. Of the client, the list behind a question mark and the
-- loop of `Run` are left out, and the limit of a million that `fmt` sets on the width of a table's
-- column; of the OSPF instance, the goroutines that call `updateInterfaces`,
-- and that a goroutine it starts reads the map of the interfaces while it may be written. Printing,
-- terminal input, the network, the generated code of rpc/ and the calls of the operating system in
-- net/netmon are left out; so are contexts that end a call before its value comes.
pub mod Base
pub mod Client
pub mod Commands
pub mod Config
pub mod Ospf
pub mod Services
pub mod Sync
pub mod Tests
