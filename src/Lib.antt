-- ===== src/Lib.antt =====
-- InstantSend sends files between computers: a client connects to a server over a plugin, they talk
-- in JSON, and the server writes what it receives to files. The paths below are from the root of the
-- repository.
--
-- Prelude and Word hold what every part shares: byte strings, Boolean tests, lists measured by native
-- numbers, and the 64-bit integers of include/json.h as bit patterns below 2 ^ 64. CString is
-- what the C functions on strings see of a buffer.
--
-- Json models include/json.h and src/json.cpp. `Json` has a constructor for each class below
-- `jsonComponent_t`, an object's map being its entries in the order of the map. `load` is
-- `loadComponent`, with `load_items` and `load_fields` for `fromString` of arrays and objects; they
-- return a value with what is left of the string where the code erases from the front, and
-- `syntax_err` with the position where it throws `jsonSyntaxErr`. `print` is `toString`, `clone` is
-- `clone`. Json/Int, Json/Float, Json/Text and Json/CodePoint hold the leaves, Json/Fields the
-- operations of `std::map`, and Json/Object the accessors `gie`, `exists`, `insertNew`, `insertVal`.
-- `double` is a parameter, `FloatOps`, of which nothing is assumed.
--
-- Paths models the functions on file names of src/sysapi/posix/misc.cpp. `make_path` is the list of
-- the directories given to `mkdir`. A read outside a string is `none`.
--
-- Writer models src/filewriter.cpp with the references of src/filelist.cpp: `Writer` is the record of
-- the fields of `fileWriter_t`, and Writer/Threads the relation `Step` between states of a writer,
-- its thread, and any number of threads that call `writeData`, `incRC` and `decRC`. A step runs from
-- one point where another thread may run to the next, with a part under the mutex as one step. A
-- semaphore is its count, a wait for it a step that needs it to be positive. `accepted`, `done` and
-- `deletes` are bookkeeping that the code does not have.
--
-- Transfer models the part of a connection that carries the file: `send_file` is the loop of
-- `FileReader::send` in src/client.cpp with the last message, `receive_file_data` is
-- `receiveFileData` of src/datareceiver.cpp on the messages that `recvData` gives, and an `Event` is a
-- call that it makes. Transfer/Offer has the first message, `offer`, and `answer`, which is a round of
-- `run` with `parseHeader` up to its decision; both say where the code leaves its buffer of 1024 bytes. `hear` is the reading of one message. `recvData` gives
-- the messages that `sendData` was given, as include/pluginapi.h demands of a plugin.
--
-- Socket models `sendData` and `recvData` of plugins/ip4tcp-posix.cpp: what the calls of the system do
-- is a list, `Outcome` for `send` and `Arrival` for what reaches `recv`. `recv_messages` is the list of
-- messages that `receiveFileData` gets, and Socket/Session puts it between the client and the server.
--
-- Socket/Endpoint has `newClient`, `newServer` and `acceptClient` of the same file, with what the calls
-- of the system do as the record `System`, and Socket/Ipv6 `newClient` of plugins/ip6tcp-posix.cpp.
--
-- Tls models plugins/ip4tcps-posix.cpp in the same way: what `SSL_write` and `SSL_read` do is a list,
-- `Write` and `Arrival`, where a call of `SSL_read` takes from one record. Tls/Endpoint has `newClient`,
-- `newServer` and `acceptClient`, with what the other functions of OpenSSL do as the record `Ssl`;
-- `Open` counts the descriptors and the SSLs that are open, `Ssls` has those of `acceptClient` by number.
--
-- Disk models `PosixFile` of src/sysapi/posix/file.cpp: a file is its contents, what the calls of
-- `write` do is a list of `Moved`, and `write_data` is `writeData`. Disk/Received composes it with the
-- client, the receiver and the threads of the writer.
--
-- ConfigTool models src/configtool.cpp: an operation is a function on the configuration, which is a
-- value of Json, into an `Attempt`, with the exceptions as `Thrown` (Json/Cast). ConfigTool/Files has
-- `cfgReadFile` and `saveCfg` on files as a function from paths, ConfigTool/Main the loop of `main`
-- with its variables as the record `Tool`; ConfigTool/Main/Changes says what an option may change.
--
-- App models the threads of the server: the loops at the end of `main` in src/server.cpp with
-- `freezeMainThread` and `threadAboutToExit` of src/sysapi/posix/appcontrol-platformdependent.cpp and
-- `start` and `delThread` of src/sysapi/posix/multithread.cpp, as a relation `Step` between states of
-- the process. A mutex that is held over several steps is a guard of the steps that need it. The pipe
-- is its number of bytes, and a write to it does not block; the destructors of the threads' objects
-- return. What the servers and the plugins do is any sequence of the steps `load`, `unload` and
-- `unfreeze`. App/Pause is `pause`, `resume` and `pausePoint` of one thread.
--
-- Servers models the thread of a `connectionReceiver_t` with `stop`, which the main thread calls, as
-- such a relation, and Servers/Config the list of src/serverlist.cpp with the loop of `main` over the
-- servers of its configuration: `construct` is the constructor of a receiver, which uses Plugins, and
-- what `newServer` of a plugin gives is the parameter `new_server`.
--
-- Events models src/eventsink.cpp and src/eventsink.h: the sets of handlers are lists in the order of
-- their addresses, for each type of event, and `send_event` is the list of the handlers that are called.
-- What `regEvents` and `unregEvents` of a plugin do is a parameter.
--
-- Json/Shared models `itemContainer_t` of include/json.h, the counted references inside of arrays and
-- objects: a counter is known by its address, and a `Store` has all of them and the containers.
--
-- FileList models the list of src/filelist.cpp with `insertController` of src/filewriter.cpp: a
-- controller is known by its address, and the numbers of `random` are a list.
--
-- Plugins models the list of plugins in src/pluginlist.cpp with the counted handles of src/plugin.h and
-- the search of src/pluginloader.cpp; `locked` is its mutex, and a call that waits for it while it
-- is locked is `blocks`. The libraries are a parameter, `try_load`.
--
-- Client models the rest of src/client.cpp: `find_way` is `findWay`, Client/Upload `FileReader::send`
-- with the answer of its peer (Transfer/Reply has the answers of the receiver), Client/Entry
-- `sendEntry` on a tree of directories, and Client/Main the loops of `main` with its variables as
-- the record `Client`. `World` is what the loop finds around it: `newClient` of the plugins, what a
-- connection does, the files, and the targets of the configuration.
--
-- Bounds and fuel: the loop of the client takes a unit of fuel for each fragment, and has one more
-- than the file has bytes. `load` spends a unit of fuel on each call of itself and of the loops of
-- arrays and objects; `need` counts those that a printed value takes, and `cfg_read_str` takes two for every
-- byte and two more, which is enough for every printed value. The loop of `jsonStr_t::fromString` takes
-- a unit for each byte. The loop that prints a number takes one for each place of its buffer. The loop
-- of the configuration tool takes a unit for each argument, and so does that of the client. The loop
-- of `recvData` takes one for each call of `recv`: in a stream that is not interrupted one call brings
-- the whole message.
--
-- Not modelled: writes to a file that fail, pauses and the broadcast of events in the writer; the
-- overflow of the `int` that counts batches; a disk that is full when a configuration is saved; errors
-- of `mkdir`; `std::bad_alloc`; the events and the
-- status of an upload; what the client and the
-- server do before their loops, but for the servers of the configuration; the names in certificates.
-- The other parts of the program (the desktop, the plugins for Windows) are not modelled.

pub mod Prelude
pub mod Word
pub mod CString
pub mod Json
pub mod Paths
pub mod Writer
pub mod Transfer
pub mod ConfigTool
pub mod Socket
pub mod Plugins
pub mod FileList
pub mod Disk
pub mod App
pub mod Servers
pub mod Tls
pub mod Events
pub mod Client
mod Tests
