-- ===== src/Lib.antt =====
-- The core of ioutgt, an NVMe-over-Fabrics target: the buffer pool of a queue, its command slots and
-- send list, the registry of controllers, the namespace table, the codec of NVMe/TCP PDUs, the receive
-- and send paths of a connection, and the fabrics, admin and IO commands.
--
-- The parts and their files:
-- * crates/ioutgt-core/src/pool.rs is in Pool. A `BufPool` keeps a sorted, coalesced list of free page
--   runs; `alloc` lends a buffer of one or up to 32 segments, dropping the buffer gives the pages back,
--   and `reserve_arena` takes a region for good. Memory is a function of addresses, and the address of
--   the arena is an argument. Pool/Runs and Pool/Conserve are about the free list, Pool/Carve,
--   Pool/Alloc and Pool/Outcome about `alloc`, Pool/Leases about dropping, Pool/Balance about any
--   sequence of calls, and Pool/Bytes about the views of a buffer.
-- * crates/ioutgt-core/src/slotq.rs is in Slots (`Slot`, `SlotArray`) and SendList. A slot task and the
--   receive path share an array; a call gives the new array and the wakers that it wakes. A future is
--   modelled by its single poll. Slots/Table keeps the slots, the stack of tags and the counter in
--   step, Slots/Lifecycle has the calls. The slots use the pool through `alloc` and `drop_data`.
--   SendList/Fifo is about the order of the work and the wake-ups.
-- * crates/ioutgt-core/src/registry.rs is in Registry; the lock is held for a whole call, so a call is
--   one step. Registry/Table has the map and what a valid registry is, Registry/Allocate and
--   Registry/Queues the calls.
-- * crates/ioutgt-core/src/subsystem.rs is in Subsystem: the namespace table (Subsystem/Table), the
--   UUIDs (Subsystem/Uuid), and in Subsystem/Cache the cache of an IO queue, with the control plane and
--   the queue as interleaved steps.
-- * crates/ioutgt-core/src/queue.rs is in Queue: the head of the submission queue (Queue/Flow) and the
--   counters. crates/ioutgt-core/src/backend.rs is in Backend, a record of operations on a world `W` of
--   stores and memory.
-- * crates/ioutgt-nvme/src/controller.rs is in Controller: the registers and the effect of a write of CC,
--   with series of writes in Nvme/Property/Registers.
-- * crates/ioutgt-nvme/src/dispatch.rs is in Nvme (the context of a connection and its roles) and
--   Nvme/Dispatch (the routing). A handler takes the context and gives it back with an `Outcome`;
--   Nvme/Replies is about the completion that every handler makes.
-- * crates/ioutgt-nvme/src/fabrics_exec.rs is in Nvme/Connect and Nvme/Property, over the layouts of
--   Fabrics (fabrics.rs) and the codes of Status (status.rs). Nvme/Connect/Admission follows an admin
--   queue into the registry, Nvme/Connect/Binding an IO queue.
-- * crates/ioutgt-nvme/src/io.rs is in Nvme/Io, with the lengths in Nvme/Io/Bounds and the completions in
--   Nvme/Io/Answers. A read parks where the pool has no buffer; it is run again when it is woken.
-- * crates/ioutgt-nvme/src/admin.rs is in Nvme/Admin (routing), Nvme/Features (features and async events,
--   with notices and polls in Nvme/Features/Events), Nvme/Pages (Identify and log pages) and
--   Nvme/Identify, which has identify.rs too. Nvme/Requests interleaves what may happen to an admin queue,
--   over the frame lemmas of Nvme/Kept.
-- * crates/ioutgt-nvme-tcp/src/queue.rs is in Tcp, and crates/ioutgt-nvme-tcp/src/recv.rs in Tcp/Recv
--   (phases, payloads, digests, the checks of a header) and Tcp/Recv/Route (routing and the loop over a
--   window). Tcp/Recv/Landing and Tcp/Recv/Fragments are about a payload in pieces, Tcp/Recv/Payload about
--   its digest, Tcp/Recv/Pdus and Tcp/Recv/Solicited about the PDUs of a transfer, and Tcp/Recv/Segments about the parts
--   of a buffer.
-- * crates/ioutgt-uring/src/sendbatch.rs is in Gather, whose entries are parts of memory, with short sends
--   in Gather/Resume, and crates/ioutgt-nvme-tcp/src/send.rs in Tcp/Send: Tcp/Send/InPlace is about the
--   payload, Tcp/Send/Layout about what a batch takes, Tcp/Send/Contents about the bytes that the
--   memory has for it, and Tcp/Send/Pieces and Tcp/Send/Response about a response.
-- * crates/ioutgt-nvme/src/spec.rs is in Spec, and crates/ioutgt-nvme/src/pdu.rs in Pdu, Pdu/Decode and
--   Pdu/Encode, over the little-endian fields of Wire. Pdu/Feed is about streams in pieces; Pdu/Header,
--   Pdu/Take and Pdu/RoundTrip follow a header from an encoder to the decoder, for the messages of
--   Pdu/Messages and Pdu/Capsules.
-- Base holds the shared lists over native numbers, tests and `Exec`. The Tests modules have runs at
-- concrete inputs.
--
-- Numbers are natural numbers, with the wrap-around of `u16`, `u32` and `u64` arithmetic written out as
-- in a release build; a failed index, `expect`, `assert!` or `debug_assert!` is `panics`. Loops are
-- structural recursions (over the free list, the segments, the offsets of the id slice); the loop of `feed`
-- passes each of its two rounds at most once. Only `drain`, the loop over a window, takes fuel; each of its
-- steps takes bytes of the window, or waits for a slot.
--
-- The state of an admin queue and the subsystem of a queue are values in its context: an `Arc` of a
-- subsystem is the key of its entry in the map of the port, and the registry is threaded through the calls.
-- An operation of a backend runs to its end before the handler goes on.
--
-- Not modelled: sockets, io_uring and the verbs library, files and the command line, and the lifetime
-- of memory. CRC32C comes from another crate: it is a parameter, a function on byte lists whose values
-- fit 32 bits, or one that folds bytes into a digest. The text forms of a UUID, the loop of
-- the stream sender, the handshake, the RDMA transport and the stores behind the backend interface are outside this library.
pub mod Base
pub mod Pool
pub mod Slots
pub mod SendList
pub mod Registry
pub mod Wire
pub mod Spec
pub mod Pdu
pub mod Subsystem
pub mod Controller
pub mod Queue
pub mod Status
pub mod Fabrics
pub mod Nvme
pub mod Tcp
pub mod Backend
pub mod Gather
