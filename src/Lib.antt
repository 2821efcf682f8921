-- ===== src/Lib.antt =====
-- The C++ client of the AudD music recognition API, modelled from src/ and include/audd/.
--
-- The program sends a form over HTTP with libcurl, decodes the JSON answer into typed results or exceptions,
-- retries some connection errors, and for streams keeps a background worker polling for callbacks. A call of
-- `AudD` prepares its source (Source), fills a form (Client.Options), posts it (Http) under the retry helper
-- (Retry), emits events (Client), decodes the answer (Response) and parses it (Parse over Coerce and Json).
-- The sub-clients (SubClients) share the same plumbing. A subscription (Longpoll) is a worker thread that
-- fills three queues, which the caller pulls; it computes its category with Md5.
--
-- Prelude        numbers, byte texts, maps, `std::to_string` and `std::from_chars`
-- Md5            src/md5.cpp; Md5.Reference is the description of RFC 1321 by padding and blocks
-- Json           the values of `nlohmann::json` and the queries made of them
-- Platform       what comes from elsewhere: `double`, `std::stod`, the JSON parser and printer
-- Coerce         the readers of loosely typed scalars in src/json_parse.cpp
-- Parse          the typed results of src/json_parse.cpp; the records of include/audd/recognition.hpp are in
--                Recognition
-- Callback       src/callback.cpp
-- Error          include/audd/error.hpp; Error.Category has the codes
-- Response       `decode_or_throw` of src/client.cpp and `raise_from_error_response` of src/json_parse.cpp
-- Retry          src/internal/retry.hpp
-- Http           src/http_client.cpp; Http.Transport has what libcurl reports, Http.Header and Http.Query the
--                callbacks and the query string, Http.Init `global_init` under threads
-- Url            `url_query_has_key` of src/json_parse.cpp and `add_return_to_url` of src/streams.cpp
-- Source         include/audd/source.hpp, `prepare_source` and its copy in src/custom_catalog.cpp
-- Client         src/client.cpp with src/internal/client_internal.hpp; Client.Rotation has the token under
--                threads, Client.Accessors the accessors of the sub-clients, Client.Throws what the calls throw
-- SubClients     src/streams.cpp, src/custom_catalog.cpp and src/advanced.cpp; Subscribe has
--                `StreamsClient::longpoll`, Throws what the calls throw
-- Links          the links of src/client.cpp
-- Longpoll       src/longpoll.cpp: Queue is `DemuxQueue`, Queue.Wakes its condition variable, Category
--                `derive_longpoll_category`, Rounds the worker on the network, Handle the class `LongpollPoll`,
--                Threads the threads with `LongpollPoll::run`
-- Examples       examples/: Csv is stream_to_csv.cpp, with a reader of such files in Csv.Reader, Rename is
--                scan_and_rename.cpp, Programs the others
--
-- A call that may throw and changes state is a function from a state to a `Result` and the state that it
-- leaves. The state of the network is a sequence of transfers, one for each request, with a counter; the
-- clock is a sequence of readings. A `std::string` is a list of bytes, a `std::map` a list of entries in the
-- order of its keys, an `int` an integer that is wrapped where the source casts. A `double` is abstract: only
-- what is computed with it is recorded. In Longpoll the worker is a machine with four phases, and what it
-- does behind the end of a request is one step, without another thread between its lines. Longpoll.Threads is
-- finer: the worker, any number of threads that call `close` and the three threads of `run` take turns in any
-- order, and each turn is one access to what they share. Its lists of accepted, delivered and reported values
-- record what happened and steer nothing. Http.Init and Client.Rotation are machines of the same kind: any
-- number of threads call `global_init`, or set and read the token and send requests, and each turn is one
-- access to what they share; the versions of a token are such a record, too. Client.Rotation.Alone has the
-- steps of `set_api_token` without another thread in between, beside the function of Client. In
-- Longpoll.Queue.Wakes a turn is all that a call does while it holds the mutex, or one notification; the
-- threads are alike, so it counts them. A program of Examples is a function of its arguments and of the world
-- of its client, to what it prints and how it ends; an exception that no handler takes is one of the ways.
--
-- The loop of `url_query_has_key` runs on fuel, the length of the query and one more; each round takes a
-- piece and its separator, so this is enough, and Url.Pieces shows it. The retry loop recurses on the
-- attempts that are left, and the loops of Md5 on the number of whole blocks.
--
-- Not modelled: the asynchronous wrappers, which call the same methods on another thread; callbacks of `run`
-- and hooks for deprecations that throw, and, in Longpoll.Threads, pulls of others while `run` pulls; the
-- wait of the retry helper as an integer of 64 bits; what scan_and_rename.cpp prints; what a subscription
-- brings to the callbacks of streams_longpoll.cpp, which is an argument of the program in Examples.Programs;
-- libcurl, the JSON library and the file system, which are parameters. Only in Examples.Rename the files are
-- a list, with what POSIX says of `rename`.
pub mod Prelude
pub mod Md5
pub mod Json
pub mod Platform
pub mod Coerce
pub mod Error
pub mod Retry
pub mod Http
pub mod Url
pub mod Recognition
pub mod Parse
pub mod Callback
pub mod Response
pub mod Source
pub mod Client
pub mod SubClients
pub mod Links
pub mod Longpoll
pub mod Examples
