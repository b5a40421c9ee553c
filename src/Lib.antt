-- ===== src/Lib.antt =====
-- Verification of the native library of ElfHookTest.
--
-- The program hooks functions of a running Android process in two ways. The inline hooks write a
-- jump over the first bytes of a function and move what stood there to a trampoline; the ELF
-- hooks replace addresses in the relocation tables of loaded libraries. A printer writes what the
-- stack unwinder finds.
--
-- - Relocate (library/src/main/inline32/relocate.c): Decode has getTypeInThumb16, getTypeInThumb32
--   and getTypeInArm; Thumb16, Thumb32 and Arm what one instruction is rewritten to; Drive the loops
--   over the displaced bytes, with the boundary arrays and the jump back. Code that is stored is a
--   list of halfwords or words, together with the offset that the C function returns. Machine has
--   the part of the ARM instruction set that these words belong to, as the architecture describes it,
--   and not as the code does; what Arm stores is run on it (Machine/Literal, Add and Branch).
-- - InlineHook (library/src/main/inline32/inlineHook.c): the table of 1024 items (Table), the bytes
--   that doInlineHook writes and doInlineUnHook writes back (Patch), freeze and the pc of stopped
--   threads (Threads), and the public calls (Calls), which use Relocate for the trampoline. Threads/Back
--   is about stopping the process twice, to hook and to unhook; Tids has getAllTids, the list of
--   threads that freeze goes through.
-- - Elf (library/src/main/xHook/xh_elf.c and xh_elf.h): the header check (Header), xh_elf_init, which
--   fills an xh_elf_t from the dynamic segment (Image), the hashes (Hash), the symbol lookup (Lookup),
--   the iterators over plain and packed relocations (Sleb and Packed; Sleb/RoundTrip has the encoding
--   that the decoder reads), xh_elf_replace_function, which
--   changes one slot and the permissions of its page (Replace), and xh_elf_hook, which does that for
--   each relocation of a symbol (Hook).
-- - HookCore (library/src/main/xHook/xh_core.c): which hooks and ignores are registered (Entry), which
--   of them are for a library (Match), and the refresh from /proc/self/maps (Refresh), which calls
--   xh_elf_hook for each of them. Steps has the calls and the rounds of the refresh thread as one
--   relation, with what holds in every state that it leads to.
-- - MemProtect (library/src/main/xHook/xh_util.c): the protection of a range of memory.
-- - Glue (library/src/main/cpp): the hook of pthread_create in HookThreadProxy.h (Threads), the
--   search for the fields of the Java runtime in HookJvmExt.h (Offsets), dlopenhook and the proxies of
--   dlopen in HookProxy.h, which refresh HookCore behind each load (Dlopen), the signal
--   handlers of uwind.h, which unwind the thread that they interrupt (Unwind), and the search for
--   the address of a library in SoTool.c (SoTool).
-- - Printer (library/src/main/xuwind/xu_printer.c): the log, file and buffer printers.
-- - Base: lists, words, bits, runs that may fault, and byte memory, which all of them use.
-- - Tests: runs on concrete inputs.
--
-- Words are native numbers with the wrap-around written out; memory is a function from addresses to
-- bytes. A run is `done`, `fault` for an access out of an array's bounds or a signal that is not
-- caught, or `out_of_fuel`. The relocation loops run on the number of bytes that are left, and
-- inlineUnHookAll on one round more than there are items, which is shown to be enough. The symbol
-- lookup takes its fuel as an argument, since a chain in a broken library may be circular. A shift
-- that C leaves undefined is malformed input to the SLEB128 decoder.
--
-- What the system does is an argument: whether fork and ptrace succeed, what regexec matches,
-- which reads of other libraries raise SIGSEGV, whether malloc has memory. A locked section is one
-- step. HookCore takes xh_elf_init and xh_elf_hook as arguments, which Elf models with the state that
-- they change. The loops of xh_elf_hook run on one round more than a table has bytes or relocations,
-- which is shown to be enough. The memory of a library that is read, mprotect and the Java virtual
-- machine are arguments, with the documented behaviour of mprotect as a hypothesis.
--
-- Not modelled are ptrace, mprotect and cacheflush themselves, the dump functions, the symbol loader
-- library/src/main/xDL, the stack unwinders of library/src/main/xuwind, the copies of Substrate, HDE64
-- and And64InlineHook, the BSD headers, and the rest of the C++ and Java glue.
pub mod Base
pub mod Elf
pub mod Glue
pub mod HookCore
pub mod InlineHook
pub mod MemProtect
pub mod Printer
pub mod Relocate
pub mod Tests
