-- ===== src/Lib.antt =====
-- libvirt-go: Go bindings of libvirt that load the C library at run time, without cgo. Go code
-- calls C functions through fields of one `nativeAPI`, reads and writes C memory through
-- unsafe pointers, and wraps native pointers in handles with a mutex. What can go wrong is there: a
-- call through a nil field, a read of memory that is not there, a block that is lost or
-- released twice, a handle used after its release, an error read on another thread.
--
-- The parts, bottom up:
--   Prelude      numbers, lists, texts as bytes, machine words
--   Errors       errors.go: the error values, `errors.Is`
--   Version      version.go: version numbers
--   Memory       C memory: typed blocks at addresses, `malloc`, `calloc`, `free`, C strings
--   World        the state that calls pass on: C memory, the state of the C library, the count of
--                open thread locks, the trace of C calls and mutex operations; its monad `M`,
--                in which `none` is a crash of the process
--   Native       native.go: `nativeAPI`, `requireSymbol`, `nativeCall`, `lastError`, `makeCString`
--   TypedParams  typed_params.go: normalization, decoding, encoding and its cleanup, and the
--                parameters of a domain
--   Resource     resource.go: handles, the calls through them, strings and lists that libvirt
--                allocates; Resource/Interleaving has objectCall and objectFree as steps of any
--                number of goroutines, with the symbols that the library has as a parameter
--   Handles      connect.go, domain.go, network.go, storage.go, snapshot.go, stream.go, secret.go,
--                nwfilter.go, nodedev.go, interface.go: the methods of each kind of handle
--   Loader       loader_unix.go, bindLibvirtSymbols and getNativeAPI of native.go, raw.go: candidates,
--                the two bindings of symbols, the initialization, the api of the process
--   DomainJob    domain_job.go: statistics of jobs from typed parameters, backups, file systems
--   DomainStats  domain_stats.go: statistics in groups, with tables of blocks and interfaces
--   Events       events.go: the registry of callbacks, registration, dispatch and closing;
--                Events/Tokens has the tokens of callbacks as a state machine with libvirt
--   Witnesses    a small libvirt, and the properties at inputs where their hypotheses hold
--
-- A definition has the name of its Go function in snake case; one that models a part of a
-- function says so. The C library is a parameter: `NativeApi` has a function field for a symbol or
-- `none` while it is nil, over a library state of any type; a C function maps its arguments and
-- the C side's state to the result register, the words that it wrote through pointers, and a new
-- state. The allocator is a parameter too, with the law that it returns nil or an unused address,
-- with a block of the size asked for. There is one library, so a handle's `api` is the parameter of
-- the section. A handle's state comes back from the calls that change it; what
-- Go code shares by pointers, a mutex, is seen as events in the trace.
--
-- Integers of Go are numbers with the wrap-around of their conversions written out; a float64 is
-- its 64 bits. Loops are structural recursion on lists; the loop of `copyCString` is a search for
-- the first NUL of a block, and a fault where there is none. No fuel is used.
--
-- The dynamic linker is a parameter of the loader, with the environment and the generated list of
-- bindings. A callback of Go code is a number, and a function that libvirt calls returns what it
-- would start. What happens to the registry of callbacks while a C call runs is not part of a
-- registration's model.
--
-- A C call is taken to return. Not modelled: the goroutine scheduler, but for the interleavings of
-- Resource/Interleaving; the garbage collector (`runtime.KeepAlive`); the wording of messages; `recover` around callbacks;
-- internal/generator and the code it generates; the examples and tests.
pub mod Prelude
pub mod Errors
pub mod Version
pub mod Memory
pub mod World
pub mod Native
pub mod TypedParams
pub mod Resource
pub mod Loader
pub mod Handles
pub mod DomainJob
pub mod DomainStats
pub mod Events
pub mod Witnesses
