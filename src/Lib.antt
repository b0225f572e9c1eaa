-- ===== src/Lib.antt =====
-- Verification library for the packet queues and the memory mappings of FastRPC, for the modules that
-- the DSP calls on the host, and for the small libraries under them.
--
-- The host and the DSP exchange packets through queues in shared memory. Each queue object has a
-- request queue, which the host writes, and a response queue, which the host reads. One direction is
-- a ring of bytes with the reader's and the writer's position, in which each packet is a header of
-- eight bytes, the buffers of the packet, and a message. A packet never wraps round the end of the
-- ring: one that does not fit there leaves its header there and goes, with the header repeated, to the
-- start. One word of eight bytes always stays free.
--
-- DspQueue: src/dspqueue/dspqueue_cpu.c, with inc/dspqueue.h, inc/dspqueue_shared.h and
-- inc/AEEStdErr.h. DspQueue/State has the structures as records: PacketQueue is one direction, Queue is
-- struct dspqueue with the header it points to, the counters of its domain and the static mappings.
--   Position: get_queue_state_write, get_queue_state_read. Header: the packing of a header and
--   peek_locked. Transfer: write_64, write_data, read_data and the bytes of struct dspqueue_buffer.
--   Refs: fastrpc_buffer_ref of src/fastrpc_mem.c, and the loops over a packet's buffers that refer to
--   mappings and undo that. Write: dspqueue_write_noblock and send_signal. Read and Wakeup:
--   dspqueue_peek_noblock and dspqueue_read_noblock, the second with early wakeup packets. Blocking:
--   dspqueue_write, dspqueue_read, dspqueue_peek. Multidomain: dspqueue_multidomain_write and
--   dspqueue_multidomain_read. Time: timespec_add_us, timespec_diff_us.
--   EarlyWakeup and Stats: dspqueue_write_early_wakeup_noblock, dspqueue_get_stat.
--   The abstract view is in Contents and Fifo: IsFifo says that an aligned direction of a queue holds
--   exactly a list of packets. Emit, Delivery, Take, Receive and Consume prove what one packet's bytes are
--   after a write and in a read; Fifo, Exchange, Space and EdgeCases put these together. Placed is
--   about the buffers that a read hands out.
-- BufBound: src/BufBound.c. A buffer is its end and position, as offsets, with its memory. BufBound/Stream
--   sees it as a window on the stream of all the bytes written.
-- StdPath: src/std_path.c, on top of BufBound. A C string is the list of its bytes before the NUL.
-- Context: src/fastrpc_context.c, the table of multi-domain contexts. Sessions is about what is opened and
--   closed for one.
-- Session: fastrpc_session_get, fastrpc_session_put, fastrpc_session_dev and the thread context of
--   src/fastrpc_apps_user.c. Ioctl: ioctl_mmap and ioctl_munmap of src/fastrpc_ioctl.c and
--   convert_kernel_to_user_error of inc/fastrpc_internal.h.
-- Mem: src/fastrpc_mem.c. The state is the three kinds of lists, smaplst, memlist and fdlist, with the
--   sessions, errno and the requests that the driver got. Static: fastrpc_mmap, fastrpc_munmap and
--   their internal variants. Remote: remote_mem_map, remote_mmap64 and their inverses. Registry:
--   remote_register_buf, fdlist_fd_from_buf, fastrpc_unmap_fd, fastrpc_mem_open, fastrpc_mem_close.
--   Handles: the DMA handles, which share no state with the rest. What a bracket of FASTRPC_GET_REF and
--   FASTRPC_PUT_REF can come to is proved once, in Outcomes for the lists and in Balance for the
--   sessions. Mapping, Willing, Roundtrip, Buffers and Unmapping are about single operations and pairs
--   of them; Invariant is about all of them, as steps in any order.
-- PlatformLibs: src/platform_libs.c, the counts of the platform libraries.
-- ScatterBuf: inc/sbuf.h, a buffer that is sized in one pass and filled in a second; Parser:
--   inc/sbuf_parser.h, consumers of a text on top of it.
-- ListenerBuf: inc/listener_buf.h, the arguments of a call in one buffer, on top of ScatterBuf, and the
--   part of listener in src/listener_android.c that sizes and maps the out buffers. Layout says where an
--   argument stands, Packing and Roundtrip what is written and what is mapped, Sizing is about the two
--   passes, Hazards about lengths that do not fit.
-- ModTable: src/mod_table.c, the modules that the DSP opens by name and invokes by handle. Uri: parse_uri,
--   on top of ScatterBuf/Parser. Open and Load: open_mod_table_open with its three ways to find a module.
--   Close: open_mod_table_close in its two parts, the one under the lock and the one behind it, with
--   open_mod_table_handle_invoke and the registrations. Registry is about the slots and Libraries about
--   what was opened of the loader, both over all sequences of operations; Reopen and Race are about two
--   operations.
-- WakeLock: src/fastrpc_pm.c, the counted wake lock. Held is about the parts of its operations, Runs about
--   all their sequences, Failing about an initialisation that fails.
-- Common: Boolean tests, lists, memory as a function from addresses to bytes, and words of 32 and 64
--   bits.
--
-- How the code is modelled. The numbers are natural numbers with the wrap-around of the C types written
-- out (add_u32, sub_u32, % 2 ^ w). A failed assert is a value of its own: the result `abort`, or
-- `none`. Each function is one whole definition with its early returns; where it is long, its parts
-- are definitions with the names of what they do, composed in the order of the code. A call that runs
-- while the other side of a queue works takes what it meets as a list: Poll for the rounds of the
-- early wakeup loop, Wait for the waits of the blocking calls. A call that has used up its list has
-- not returned, and the result says so. These lists take the place of fuel: no bound is put on them.
-- In Mem the driver is a function from the requests so far to the answer, so that it may answer the
-- same request differently, and memory may run out at any request; an allocation that fails does so
-- until the next request. The process is taken as initialised, so of fastrpc_init_once only its code
-- counts. File descriptors and domains are signed, and a buffer is its address. The
-- static mapping that fastrpc_munmap removes is not in the list's mutex while the driver runs; the
-- model takes each call as one step. Counts of registrations have no upper bound.
-- In ModTable the loader, with dlopen, dlsym, dlclose and the address of the slots, is a parameter, and so
-- are the functions of a module. An invocation is two steps, its beginning and its end, between which
-- its function and other threads may use the table; allocations succeed. The hash tables of uthash are a set of slots and
-- two lists. The counts of the slots are unbounded. The sizes are those for pointers of 8 bytes, and the
-- names are parsed at one fixed address. The loops of the parser take fuel, one round for each byte of the
-- name and one more: each round takes a byte or ends the loop. The search for a key takes a round for
-- each slot.
-- In WakeLock the system calls are a parameter, answers by the number of calls so far; the mutex is a value,
-- and to lock one that was destroyed gives none. fastrpc_wake_lock_release takes the count as fuel, since
-- each round lowers it. The kernel holds the wake lock if the last write that succeeded was to the lock
-- file.
-- In ScatterBuf an int is the pattern of its 32 bits, and addresses are words of 64 bits.
-- The driver's dspsignal_signal is a parameter, a function from signal numbers to result codes, and so
-- are the session, device and context calls that Context uses.
--
-- Not modelled: mutexes, as each call holds its queue's; cache maintenance, which has no effect on the
-- host; memory barriers; fastrpc_context_table_init and fastrpc_context_table_deinit. Creating and closing queues, callback threads; the loop of listener with its
-- remote calls and reallocations, and sbuf_range, which nothing uses; the construction and destruction of
-- module tables and the process-local storage that finds them; and the rest of the repository, which is
-- mostly glue round system calls, generated stubs and vendored code.
pub mod Common
pub mod BufBound
pub mod Context
pub mod DspQueue
pub mod Ioctl
pub mod ListenerBuf
pub mod Mem
pub mod ModTable
pub mod PlatformLibs
pub mod ScatterBuf
pub mod Session
pub mod StdPath
pub mod WakeLock
