-- ===== src/Lib.antt =====
-- snmpy is an SNMP subagent: plugins gather values and tables, and an agent serves them through the
-- net-snmp library under object names that a generated MIB defines. This library models its core.
--
-- The parts, and how they work together. A plugin's configuration names items, which lib/snmpy/mibgen.py
-- gives object names and SNMP types (Mibgen) and lib/snmpy/module/__init__.py keeps with their values, or
-- with the rows of a table (Module). An update gets them out of text by lib/snmpy/parser.py (Parser); the
-- plugins stand in lib/snmpy/module/ (Plugins). lib/snmpy/server.py starts a thread for each plugin and
-- commits what an update leaves (Server) to the registry of lib/snmpy/agentx.py (Agentx), which net-snmp
-- reads. lib/snmpy/__init__.py runs threads (Tasks), and lib/snmpy/httpd.py serves the MIB (Httpd). The
-- program `snmpy` reads the configuration and makes the plugins (Start).
--
-- The files:
--   Shared: numbers, lists, texts as bytes, integers, values, dictionaries, sorting, and results of code
--     that may raise; a method that changes its object gives back the object beside its result.
--   Agentx.Asn: OctetString, Counter64, Integer32 and their watchers; Agentx.NetSnmp: net-snmp's data
--     sets as an interface with laws, and an instance; Agentx.Table: Table; Agentx.Agent: AgentX;
--     Agentx.Process: check_and_process.
--   Mibgen.Names: camel_case and get_oidstr; Mibgen.Syntax: get_syntax, with its regular expressions;
--     Mib: config_mib, create_mib, and its last pass over the lines.
--   Module.Item: ModuleItem; Module.Values: ValueModule; Module.Tables: TableModule.
--   Parser: parse_value, parse_table, and the two plugins that append what that yields.
--   Plugins: the update of exec_value; Plugins.LogProcessor: tail; Plugins.FileHash: md5sum,
--     and Plugins.FileValue: the rest of file_value;
--     Plugins.FilesystemSpace, Plugins.ProcessInfo, Plugins.DiskUtilization and Plugins.RaidInfo: the
--     plugins that gather file systems, processes, disks and RAID members, whole.
--   Server: start_agent, with the threads that it starts, start_fetch, commit_data; Server.Loop: start_snmpd; Server.Signals: how
--     its loops end; Server.Whole: SnmpyAgent.__init__; Server.Threads: the fetch threads and the main
--     loop side by side; Tasks: work_func, call by call in Tasks.Work; Tasks.Log:
--     log_error and log_fatal; Httpd: the routes and
--     route_request; Httpd.Attributes: Response; Httpd.Requests: process_request.
--   Start: the loop of parse_conf over the plugins' files, and initialize.
--
-- Texts are Python 2's byte strings. Integers are unbounded, as Python's; where ctypes cuts one the
-- width is written out (an int has 32 bits, a long 64). Loops on fuel: the digits of a number, at most
-- its value; the rows that Table.clear removes, at most those there are; the lines of read_lines, at
-- most the bytes of the text; the parts of hash_parts, at most the bytes of the file; the rounds of main_loop
-- and fetch_while, one more than those up to the one that ends them. Each theorem about
-- such a loop is about the run with that fuel.
--
-- In Server.Threads a thread is the sequence of what its calls do to the lock, to tables and to values,
-- and a step is the next act of any thread. A commit there ends where an exception may end it: values
-- are set one by one without the lock, a table is refilled row by row under it.
--
-- Parameters: net-snmp, the matches that Python's `re` finds in a configured expression, the update of a
-- plugin, what the file system, /proc, `os.statvfs`, `sar` and `select` show, the conversion of a text to
-- a float, a hash, the date, the texts of Python's http server, what mdadm prints, what YAML makes of a
-- file, the import of a plugin, and when signals come. Not modelled: the arguments of the program, its log
-- files and its change to the background; sockets; the layouts of net-snmp's structures; and
-- interleavings inside one call.
pub mod Shared
pub mod Agentx
pub mod Mibgen
pub mod Module
pub mod Parser
pub mod Plugins
pub mod Tasks
pub mod Httpd
pub mod Start
pub mod Server
pub mod Mib
