-- ===== src/Lib.antt =====
-- tangle-accelerator: a gateway between clients and an IOTA full node. Clients reach it over HTTP; their
-- transactions are sent to the node at once, or buffered in redis under a UUID and sent by a thread that
-- also watches the node. This library models the C code of that core and proves what it does.
--
-- How the parts interact. The HTTP handler collects a request and picks an operation of the core by its
-- path. Buffering and fetching (core.c) go through the cache (backend_redis.c) and a read/write lock; the
-- broadcasting thread (periodical_task.c) takes requests from the buffer list, attaches and sends them
-- (core.c, pow.c), and moves their UUIDs to the complete list, from which clients fetch them.
--
-- Which file models which part:
--   Base, Exec       native numbers, lists, C strings; functions that return a status and change the world
--   Errors           common/ta_errors.h, common/ta_errors.c: the statuses, their numbers and messages
--   Serializer       accelerator/core/serializer: ser_helper.c (Helper, Transaction), serializer.c (Transfer, Requests,
--                    Responses); which transfer requests are accepted (Transfer/Accepted); objects of strings
--                    (Members), arrays of trits (Carries), round trips (RoundTrip); the functions in the places that
--                    Core/Apis leaves for them (Service)
--   Serializer/Mam   ser_mam.c (Requests, Responses, Channel), with the records of accelerator/core/request and
--                    accelerator/core/response; a round trip (RoundTrip)
--   Mam              accelerator/core/mam_core.c: the MAM library, keys and initialisation; channels and keys (Channel),
--                    sending (Send), receiving and registering (Receive); the key of a message (Fresh), the end of
--                    the search (Ends), a registered seed (Register), the operations of apis.c (Api)
--   Utils            utils/tryte_byte_conv.c, utils/hash_algo_djb2.h, utils/fill_nines.h
--   Env              what the program calls: redis, the lock, libuuid, the node, cJSON (Env); their documented
--                    behaviour (Env/Laws); JSON trees (Env/Json); conversions of trits, and fields of transactions (Env/Trits); the IOTA library and qsort (Env/Iota, Env/Tangle); what leaves the database
--                    alone (Env/Frame); a world in memory (Env/Memory)
--   Cache            utils/cache/backend_redis.c: redis_X and cache_X, name by name; the occupied space (Space)
--   Config           accelerator/config.c, accelerator/config.h, accelerator/cli_info.h: the configuration and its
--                    options; strtol (Numbers), numeric options (Numeric), reachable configurations (Reached), the
--                    loops over the command line and a file (Start)
--   Core/Buffer      accelerator/core/core.c: push_txn_to_buffer, ta_fetch_txn_with_uuid,
--                    ta_fetch_mam_with_uuid
--   Core/Node        ta_get_node_status of core.c, get_node_status_milestone_deserialize of
--                    accelerator/core/serializer/serializer.c, ta_update_full_node_connection of
--                    accelerator/core/periodical_task.c
--   Core/Attach      accelerator/core/pow.c; ta_attach_to_tangle and ta_send_trytes of core.c
--   Core/Broadcast   accelerator/core/periodical_task.c: the two broadcasting loops, and the eviction loop of
--                    health_track; a whole round (Send), its last step (Move), the loops (Rounds), the
--                    outer loop of health_track (Health)
--   Core/Requests    the abstract state of the request buffer: pending and sent requests, with the operations
--                    submit, complete and collect, and how the code implements them
--   Core/Query       core.c: finding transactions and bundles; the first bundle of transactions (Bundle), cached
--                    and uncached objects (Objects)
--   Core/Apis        accelerator/core/apis.c, over an interface of serializers; a refused transfer (Refused)
--   Core/Transfer    core.c: ta_send_transfer, with its fallback to the request buffer (Buffered), and
--                    ta_send_bundle
--   Endpoint         endpoint/text_serializer.c (Text) and endpoint/cipher.c (Cipher); printf and atol
--                    (Decimal); both together (Message)
--   Http             connectivity/common.c; connectivity/http/http.c: parameters and response codes
--   Http/Route       ta_http_process_request and the processors
--   Http/Handler     ta_http_handler, build_request, ta_http_header_iter
--   Examples         the theorems at concrete inputs
--
-- How the code is read. A status_t with results through pointers is an Outcome; a function on the world is
-- an Exec, a chain of calls that stops at the first error. A pointer that may be NULL is an Option. What
-- uninitialised or neighbouring memory holds is an argument (stack, heap, garbage). A static or a field is
-- an argument of the same name. Integers of a fixed width wrap where the code lets them (% 2 ^ w). What an
-- output holds behind an error is not told. Code of other projects is a record of its operations, and its
-- laws are records of their own; each theorem takes those it needs.
--
-- Bounds and fuel. Loops over a list or a count are structural. The decoder of trytes runs on fuel, and so
-- do the broadcasting and eviction loops, whose rounds depend on what clients add meanwhile, and the search
-- for a MAM channel with an unused key, whose rounds depend on what was sent before; running out is a value
-- of its own (none, running), which stands for no result of the program. The loop over the node
-- list has the 5 rounds of MAX_NODE_LIST_ELEMENTS; a uint64_t is printed with 20 digits, which are all it
-- has; the cipher's loops run once for each block. The search for a MAM key is run for
-- depths below 31, for which C defines 1 << depth.
--
-- Not modelled: start-up behind the configuration, the operations of apis.c on the database, the serializers for the
-- database and for MQTT, MQTT, the Cassandra storage, the rest of the endpoint device, the reattacher,
-- and logging. Allocation succeeds, except where the caller's code makes the failure a case of its own.
pub mod Base
pub mod Errors
pub mod Utils
pub mod Exec
pub mod Env
pub mod Cache
pub mod Config
pub mod Core
pub mod Http
pub mod Serializer
pub mod Mam
pub mod Endpoint
pub mod Examples
