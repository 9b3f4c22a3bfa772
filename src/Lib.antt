-- ===== src/Lib.antt =====
-- minapp, a C++ library for servers on Boost.Asio: sessions cut the bytes of a socket into messages
-- for a handler and write the handler's buffers in order.
--
-- The program's parts, and the files that model them:
-- In Buffer: `triple_buffer` and `buffer` (include/minapp/buffer.hpp). One vector holds the external
-- input that a handler may see, the internal input that it may not see yet, and the output buffer
-- that the socket fills. Buffer/Segments describes it as three lists, Buffer/Refine relates the
-- operations to these, Buffer/Window is about what a handler sees, Buffer/Adaptor and Buffer/Growing
-- about `dynamic_buffer_adaptor` (src/session.cpp).
-- In Protocol: the protocols and their options (include/minapp/protocol.hpp).
-- In Reader: `read_some`, `read_fixed`, `read_delim`, `read_prefix` and the completion handlers of
-- their reads (src/session.cpp). They work on a `TripleBuffer` and end with what they ask of the
-- session: a read to start, a message to hand over, or an error. Reader/Stream completes the reads
-- with the bytes of a socket one after the other.
-- In WriteQueue: `persistent_buffer_manager` (include/minapp/persistent_buffer_manager.hpp), which
-- keeps what waits to be written and what is being written.
-- In Session: `session` (include/minapp/session.hpp, src/session.cpp), which does what Reader asks,
-- writes what WriteQueue has marked, and moves its status from `connecting` to `closed`.
-- The handler is a parameter; theorems about the session are for every handler that is tame,
-- that is, does to the session only what keeps it consistent and does not move the status back.
-- Session/Termination is about the end of `read`, Session/Promise and Session/Generator about what
-- `connect` gives its caller and the endpoints that it tries, Session/Threads about threads that
-- write to one session.
-- In Object: `object` and `object::atomic` (include/minapp/object.hpp). Object/Counting,
-- Object/Steps and Object/Program are about the counts of the blocks, Object/Types and Object/Casts
-- about the casts, Object/Lock about threads that share an atomic object and its lock in the low
-- bits of the pointer, Object/Views (with Object/Flow for the C++ exceptions) about the views
-- `ptr`, `ref`, `fn` and `vec` and their checks of the type, and Object/Arrays about `holder<T[]>`,
-- `vec` and `span`.
-- In Spinlock: `spinlock` (include/minapp/spinlock.hpp), by which the others take their turns.
-- In Service: `service`, `connector` and `acceptor` (src/service.cpp), which make sessions; in
-- Service/Callback `connect_handler`, the handler of a session that is opened with a function.
-- In Persist: `persist` (include/minapp/persistent_buffer.hpp), which makes the buffers to write.
-- In Manager: `session_manager` (src/session.cpp), the sessions that are alive; Manager/Registry is
-- about threads that create, destroy and look up sessions, over an interface for the ordered set
-- that Manager/Registry/Listed fills.
-- In AttributeSet: `attribute_set` (src/attribute_set.cpp), over the interface `NvpSet` for the
-- ordered set of Boost.Intrusive, which AttributeSet/Listed fills with a list of entries;
-- AttributeSet/Typed is about the templates `get<Value>` (include/minapp/attribute_set.hpp).
-- In Servlets: `servlets` (include/minapp/servlets.hpp), typed access to an attribute set, and
-- `session::servlet`.
-- In Handler: `noexcept_handler` and its wrapper (src/handler.cpp).
-- In Hexdump: `hexdump` (include/minapp/hexdump.hpp).
-- In Bluetooth: addresses and endpoints (include/boost/asio/bluetooth), Bluetooth/Scanning with the
-- text that `make_address` reads.
-- In Base holds what they share; Tests runs the theorems on concrete data.
--
-- Numbers: `std::size_t`, `std::uintmax_t` and `unsigned long` are ℕ modulo `2 ^ 64`, written out
-- where the source computes; a buffer is valid if its vector is no longer than `max_size`, which is
-- below `2 ^ 63`. Bytes are ℕ, below 256 where a theorem needs it.
-- Fuel: `Session.read` counts the messages that are in the buffer already, for which more than the
-- bytes of the internal input is enough; `AttributeSet.visit` and `Manager.loop` the entries met;
-- more than the entries of the set is enough for a callback that leaves the set alone;
-- `Reader.Sequence.receive` gives each message eleven rounds, for nine bytes of a prefix, the
-- payload and the handler.
-- Concurrency: in Object/Lock and Spinlock each access to the shared word is one step of one
-- thread, in a sequentially consistent order; Object/Lock leaves out `set`, which writes the word
-- whoever has the lock; in Session/Threads each access to the status and each
-- method of the write queue. Elsewhere what stands between the taking of a lock and its release is
-- one step, as is a loop of compare and exchange.
--
-- Not modelled: the construction of the values in an `object`, its `release()` and its constructor
-- from a handle; a failure of the allocation of a block other than an array; the destruction of the
-- sessions that a service has made; memory orders weaker than sequential consistency; the text of
-- error messages. Boost.Asio, Boost.Pool and Boost.Intrusive are parameters.
pub mod Base
pub mod Buffer
pub mod Protocol
pub mod Reader
pub mod Persist
pub mod WriteQueue
pub mod Session
pub mod Spinlock
pub mod Object
pub mod AttributeSet
pub mod Handler
pub mod Service
pub mod Hexdump
pub mod Servlets
pub mod Bluetooth
pub mod Manager
pub mod Tests
