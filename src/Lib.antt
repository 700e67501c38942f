-- ===== src/Lib.antt =====
-- Verification of homelab-agent, the program that runs on each machine of a homelab and tells its
-- dashboard about containers, networks and disks, and changes them when asked.
--
-- The parts that are modelled, each a component of the program and a module here:
--
--   CaptureFilter   capture_filter.py: the language of capture filters. `Tokens.scan` is the loop of
--                   `_tokens`; `Parser` is the state of `_Parser`, the tokens that are left, with its
--                   errors as values; `Primitive` and `Grammar` are its methods, and `Packet` the
--                   decoded packet with the helpers that build predicates. `Syntax` describes the
--                   language as the doc comment does, for `Meaning`, `Condition` and `Compile`.
--   Netwatch        netwatch.py: the `Detector` of the network watch. `Address` tells which claims
--                   count; `Detector` is its state with `_raise`, `_evict` and `_trim`; `Observe` is
--                   `observe_arp`, `observe_dhcp`, `active` and `recent`; `Runs` states how `handle`,
--                   `_supervise` and a restart drive it.
--   Connections     connections.py: `Flow` has the index of containers and `attribute`, `Aggregate`
--                   the loop of `aggregate`, which groups flows into conversations; `Processes` is
--                   `_name_host_processes`, which asks sockets.py about the rows it returns.
--   Sockets         sockets.py: `Table` is `build_index` and `match`, `Owners` the walk of `owners`.
--   Rebuild         rebuild.py: `Jobs` is the registry of jobs with `start`, `_record`, `_finish` and
--                   the thread's `_run_job`; `Shell` is `_script`, `Failure` is `classify_failure`.
--                   `Runs` interleaves requests and threads, one locked operation at a time.
--   Disk            disk_usage.py and disk_delete.py: `Path` has `normalize`, `_under` and what they
--                   use of posixpath; `Scans` the registry of scans with `usage`, `known_bytes`,
--                   `forget_path` and `view`; `Host` what is read of the host and of Docker; `Delete`
--                   is `check` and `delete`. `Normal`, `Under` and `Split` say what the operations on
--                   the texts of paths mean for the names between the slashes.
--   Files           files.py: `Roots` has the folders that may be written to and `why_not_writable`,
--                   `Change` the operations that start a helper, each a plan and then its outcome, and
--                   `Write` is `write_file` with the steps of its shell script `_PLACE` and what that
--                   can meet at the name; compose_edit.py calls it too. Deleting goes on to
--                   `Disk.Delete`, as the code does.
--   CaptureWorker   capture_worker.py: `Health` is `TcpHealth`, `Dns` is `dns_name` and `parse_dns`, and
--                   `Flows` is `flow_key`, `service` and the counting in the loop of `run`, whose
--                   packets and ticks `Balance.Reachable` puts in any order; `Ticks` tells what is
--                   reported, and `Written` how a name is written in a message.
--   Config          config.py: `Settings` is SETTINGS, `Clean` is `_clean_paths` and `_clean`, and `Store`
--                   is the saved settings over the environment with `get`, `update`, `reload` and
--                   `current`. A JSON value is what `str` makes of it, with null, strings and Booleans
--                   told apart.
--   ComposeEdit     compose_edit.py: `Watch` is `watch`, `Apply` is `_apply` with the roll-back, and
--                   `Save` is `_write`. The previous text is read as `_read` does, with every line end
--                   a newline (`Apply.read_lines`). `Settled.IsWriter` is the interface between `_apply` and
--                   files.py, and `Save` fills it with the model of `write_file`.
--   Prelude         what they share: Python's `str` as a list of code points, `dict` as an association
--                   list in insertion order, `sorted` as a stable insertion sort, and errors as values.
--
-- Correspondence. A Python function is a function by clauses under its own name; a method takes its
-- object's state and gives it back changed; an exception is an `err`. A dictionary with fixed keys is
-- a record. Texts for people (titles, hints, log lines) are left out. Threads and requests that share
-- a registry under a lock are steps of one relation (`Rebuild.Runs.Reachable`).
--
-- Bounds and fuel. The scanner's loop runs on the length of its text plus one, the two loops of the
-- parser on the number of tokens, `_evict` on the number of findings, and `watch` on one round for
-- each second that it may take. `dns_name` runs on the bytes of the message times the pointers that it
-- may follow, and `_folder_uid` on the length of its path plus one. That this is enough is proved for
-- each, for `_folder_uid` on paths in normal form. The parser's depth is counted down from
-- MAX_DEPTH + 1. Numbers are Python's, without bound, and none is below 0 where it is used; TCP's sequence numbers are below 2 ** 32, and `_signed` is written with its wrap-around.
--
-- Parameters: `ipaddress` (what it says of an address), `hashlib`, the ids of `uuid`, the clock,
-- Python's floating-point numbers (`Config.Clean.Floats`), and what Docker, the file system and the
-- helper containers answer.
--
-- Not modelled: the HTTP routes of main.py, the raw sockets, the decoding of frames and the other
-- protocols of capture_worker.py, the parsing of the conntrack and socket tables, the walk that fills a
-- scan and its threads, and listing, reading and downloads in files.py; backups, updates, deployments,
-- probes, terminals, links, networks and sensors; of the files above, the parts that only call Docker
-- or read the host.
mod Prelude
pub mod CaptureFilter
pub mod Netwatch
pub mod Connections
pub mod Rebuild
pub mod Files
pub mod ComposeEdit
pub mod Config
pub mod Sockets
pub mod Disk
pub mod CaptureWorker
