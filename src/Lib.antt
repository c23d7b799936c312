-- ===== src/Lib.antt =====
-- A verification library for bmon, a bandwidth monitor: input modules read counters of network
-- interfaces, the core keeps them as attributes of elements, computes totals, rates and histories, and
-- output modules draw them.
--
-- The parts and their files (paths are from the root of the repository):
--   Prelude     lists, tests, integers, and C strings as lists of bytes (strcmp, strcasecmp, tolower)
--   Clock       the time stamps of src/utils.c
--   Args        the options of the command line, parse_args_pre and parse_args_post of src/bmon.c
--   Loop        the main loop of src/bmon.c: when it reads, what it calls, and how long it sleeps
--   Floats      the operations on float and double, a parameter of the parts that compute with them
--   ElementCfg  src/element_cfg.c, the reference-counted configurations of elements
--   Policy      match_mask, element_allowed and element_parse_policy of src/element.c
--   Units       src/unit.c, the units and the choice of a divisor
--   AttrDef     the table of attribute definitions of src/attr.c
--   Rate        the counters and rates of src/attr.c (calc_counter_rate and what is around it)
--   Attr        the attributes of an element in src/attr.c: the hash, the sorted list, the updates, and the
--               selected attribute
--   Conf        src/conf.c: the module options of the command line, the unit exponent, and what is made of
--               the sections of a configuration
--   Module      src/module.c, and the default modules of src/input.c and src/output.c
--   Tree        the tree of elements in src/element.c and the moves of the current element in it
--   Element     src/element.c: an element, its lookup and creation, its update and its lifetime, and the
--               sweep of free_unused_elements in src/group.c
--   Proc        proc_read of src/in_proc.c, the reader of /proc/net/dev
--   Netlink     src/in_netlink.c: the traversal of traffic control objects (Objects) and its
--               fuel (Fuel), the links (Links)
--   Graph       src/graph.c, the tables of characters that graphs are drawn into
--   Format      src/out_format.c, the format string, its tokens and their drawing
--   Ascii       src/out_ascii.c: the order of its output, the names in their array, and its options
--   Curses      src/out_curses.c: the division of the screen (Layout), the rows of the list (Rows), the keys,
--               and the options
--   Dummy       the counters of src/in_dummy.c
--   Group       src/group.c: the groups and their titles, and the moves of src/element.c between groups
--   Cursor      the current entry of a circular list, as src/history.c and src/group.c move it
--   History     src/history.c, the rings of samples
-- A component's file has its state and operations under the source's names; its child modules prove, and
-- the child Tests runs the code and applies the results at concrete values.
--
-- State is passed explicitly: a function takes the globals or the object that the C function
-- changes, and returns them. A circular list is a list, a pointer into a registry is the unique
-- name of what it points to, a set of flags is a record of Booleans, and NULL is `none`. A
-- `uint64_t` is a number whose wrap-around is written out; `int64_t` seconds and `int` sizes are
-- unbounded, as their overflow is undefined in C. Allocation does not fail, since xcalloc ends the
-- program. An element of a list is found by its name and identifier, and a write through the
-- pointer that a lookup returned replaces it; Element and Proc work on one list of elements, that
-- of a group or of a parent. What getopt returns and the setters of libconfuse are parameters of
-- Args, what sscanf converts is a parameter of Proc, what printf prints one of Format, and what
-- rand returns one of Dummy. The functions of libnl on its objects and caches are the records
-- TcCaches and LinkFunctions of Netlink. The table of a graph and the counters of Dummy are one
-- array each, and an access outside it, like BUG(), is `none`. The main loop runs over the
-- readings of the clock, one for each round, and the loop of curses_pre over the keys that wait,
-- so both end; every other loop that has no fuel is a recursion on its list or its count. The loop
-- of history_update that fills in unknown samples takes fuel; `none` is a run out of fuel. Enough
-- is the number of rounds after which the time since the last update is used up. The functions
-- that call it pass the fuel on. The traversal of traffic control objects takes fuel, of which the
-- height of the hierarchy of these objects is enough. The loop of format_probe takes the length of
-- the format string as fuel, which is enough since every round passes a byte.
--
-- Not modelled: the characters and colours that are written to a terminal, libconfuse, BSD system
-- calls, what is inside libnl, the options of modules other than ascii and curses, the division of
-- the scale of a graph for its unit, and the freeing of memory other than that of dead elements.
pub mod Args
pub mod Ascii
pub mod Attr
pub mod AttrDef
pub mod Clock
pub mod Conf
pub mod Curses
pub mod Cursor
pub mod Dummy
pub mod Element
pub mod ElementCfg
pub mod Floats
pub mod Format
pub mod Graph
pub mod Group
pub mod History
pub mod Loop
pub mod Module
pub mod Netlink
pub mod Policy
pub mod Prelude
pub mod Proc
pub mod Rate
pub mod Tree
pub mod Units
