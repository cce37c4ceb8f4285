-- ===== src/Lib.antt =====
-- codexOS is a small operating system for x86-64. A UEFI loader (boot/uefi-loader) reads the boot
-- state, the trust root and the update manifest, hands the memory map to the kernel as a boot
-- information, and starts it. The kernel sets up its page allocator from that map, its interrupts,
-- its drivers and its filesystem, checks that user processes are isolated and preempted, and then
-- runs a desktop on the framebuffer with a PS/2 keyboard and mouse.
--
-- BootInfo models libs/bootinfo/src/lib.rs: the memory map and the table of reserved ranges, with
-- reserve_memory and the sums over the map. BootInfo/Reserve has the laws of the table.
--
-- Memory models kernel/src/memory.rs. PhysicalPageAllocator is a record whose arrays are lists of
-- their used parts; allocate_contiguous_pages, deallocate_contiguous_pages, stats and the rest are
-- functions on it under the source's names, and Memory/Init is init, which reads a BootInfo.
-- Memory/Extents, Regions, Returned and Merge have the lemmas of the two tables, Memory/Ownership
-- sees the allocator as a set of owned addresses, and Release, Lifecycle and Init/Usable state what
-- the operations do to it.
--
-- Bytes has the byte arrays and words that the formats share; Bytes/Fields treats a fixed layout as
-- the concatenation of its fields. UpdateFormat models libs/update-format/src/lib.rs: BootState,
-- TrustRoot and Manifest with encode and decode, which return the source's error values.
--
-- Heap models libs/heap-allocator/src/lib.rs, over the 64-bit words of its region: Heap has the
-- records in memory, Heap/Allocate the search and the cut of a block, Heap/Release the check of a
-- header and the insertion of a block, Heap/Expandable the two heaps in one. A loop over the free
-- list takes fuel and gives none when that is spent; more fuel than the region has bytes is enough,
-- since every block has some. Heap/Cells sees a region as the blocks that tile it, and
-- Heap/FirstFit and Heap/Release/Freed are the operations on those; the other modules there connect
-- the two. What a lock protects is one step.
--
-- Input models kernel/src/input.rs: feed of the keyboard is feed_key, feed of the mouse is
-- feed_mouse, and poll_event and poll_input run over a list of the readings of the two ports; past
-- its end the controller has no output. Input/Controller is the start of the mouse over ports that
-- are a parameter; its waiting loops have the source's limits as fuel. Input/Layout has the keys of
-- a keyboard as they lie on it; Input/Keyboard, Mouse and Poll state what the decoders mean.
--
-- Scheduler models kernel/src/scheduler.rs with the processor it changes (switch_root of
-- kernel/src/vm.rs, set_privilege_stack and the trap frame of kernel/src/interrupts.rs).
-- Scheduler/Trap has schedule, split where the source continues with a chosen process, and
-- handle_user_trap; Scheduler/Trap/Outcome the checks of a finished run, with Outcome/Accepted for
-- the runs that they accept. Scheduler/Trap/Safety, Handled, Wakes and Returns follow the process
-- that a trap ends with, and Others, Left and Isolation the processes that did not cause it. The
-- loop that halts until a sleeper wakes runs on fuel and gives none when it is spent; fuel for
-- every 64-bit tick is enough when each halt advances the tick counter, which is a hypothesis about
-- the timer. The tick count after a halt and the address of scheduler_kernel_resume are parameters.
--
-- Process models the system calls and traps of the isolation probe in kernel/src/process.rs, over a
-- memory that is a function from addresses to bytes.
--
-- UserElf models kernel/src/user_elf.rs: parse, split into the checks of the file's header, the
-- turn of the loop over the program headers and the last checks, and build_flat_rx_executable.
-- UserElf/Loadable states what an accepted executable promises; UserElf/Flat and RoundTrip follow a
-- built file through the parser.
--
-- Fs models kernel/src/fs.rs: Fs/FilePath the paths and the checks of a tree, Fs/SuperblockCodec
-- and Fs/FileRecord the two formats, Fs/Slots the choice of a place, Fs/Device what is read,
-- Fs/Commit mounting and committing, Fs/Tree the trees that the operations on files make
-- (write_file_inner's is tree_with_file, remove_dir's tree_without_directory and so on), and
-- Fs/Changes the operations under the source's names, which commit such a tree. The device under it
-- is a record of sectors behind the BlockDevice trait of kernel/src/block.rs: a write of one sector
-- is done or refused as a whole, and a device refuses all writes and flushes once it has done so
-- many as it has left. That is how a commit is interrupted: the number is a variable. Writes are on
-- the device when they are done, so a flush only counts as an operation that may be refused.
-- Fs/Commit/Crash follows a commit through its stages, Fs/FileRecord/Written, Encoded and
-- ReadEntries a record from the encoder to the decoder, and Fs/Changes/Atomic an operation from its
-- tree to what is loaded after it; Fs/Changes/Runs follows several. Fs/Tree/Shows sees the files of
-- a tree as a map from paths to contents and permissions, Fs/Changes/Contents states what each
-- operation does to that map, and Fs/Changes/Reads what can be read after it. Fs/Changes/Remounts
-- compares the check of the committed state with a new mount. Fs/Listing has `info`, `metadata` and
-- `list_dir`. Fs/Utf8 has the texts, and Fs/Tree/Recordable and Operations why every tree that an
-- operation makes has a record that decodes to it. The texts that the operations are given are
-- UTF-8 and the permissions 16 bits, as the source's types have it.
--
-- Prelude has what the modules share: Boolean tests and lists over the native numbers, saturating
-- and checked words, ranges of addresses, masks and the result monad. Tests has the concrete
-- inputs. Words of the machine are natural numbers with the wrap, saturation or check of the source
-- written out; usize has 64 bits.
--
-- Not modelled: what is printed or drawn, assembly, the page tables, the block and network drivers,
-- hardware discovery, the loader and the build tool.
pub mod Prelude
pub mod BootInfo
pub mod Memory
pub mod Bytes
pub mod UpdateFormat
pub mod Input
pub mod Scheduler
pub mod Process
pub mod UserElf
pub mod Heap
pub mod Fs
pub mod Tests
