-- ===== src/Lib.antt =====
-- Verification library of ff_test, a program that decodes video files with FFmpeg, one task for each
-- processor core, and measures the time and the memory that this takes.
--
-- The parts and their modules, with paths from the root of the repository:
--   * src/ff_mem.cpp, the allocator that FFmpeg is linked to: `Mem`. `jut_malloc`, `jut_realloc`
--     and `jut_free` are functions of the heap (the list of its live blocks) and of the counters
--     of the current decoder; the global `policy` is their first argument. Mem/Accounting,
--     Mem/History, Mem/Granted and Mem/Tracked are about the count of bytes, Mem/Peak and
--     Mem/Watermark about its maximum, Mem/Layout about the blocks, Mem/Policies about all values
--     of `policy`.
--   * src/Decoder.cpp, one FFmpeg decoder: `Decoder`. Decoder/State and Decoder/Impl hold the two
--     halves of the state, Decoder/Demux and Decoder/Decode `demux` and `decode`,
--     Decoder/Pipeline the two together, Decoder/Session any calls of them and whole streams
--     (with the allocator in Decoder/Session/Memory, with the clock in Decoder/Session/Times, and
--     what the counters count in Decoder/Session/Packets), Decoder/Lifecycle `init`, `open`,
--     `release` and the destructor, Decoder/Buffers the frame buffers (`update_frame_pool`,
--     `lavc_GetFrame`), Decoder/Callbacks the callbacks and their setters, and Decoder/Device the
--     class with all of these. The calls of FFmpeg are logged where their order matters, and what
--     they answer is an argument; `Av` has the FFmpeg values that are read.
--   * src/Task.cpp: the callbacks and the output files in `Task`, with what they do in a decoder in
--     Task/Reading and Task/Recording, on a full disk in Task/Full; `decode_routine` in Task/Routine;
--     the thread `svc` and the calls on a task in `TaskPool`, with the pool of src/TaskPool.cpp.
--     TaskPool/Threads interleaves the steps of the threads with the calls of the main thread, in any
--     order or by a scheduler; TaskPool/Binding follows the processors that the threads are bound to.
--   * src/Sender.cpp, a thread that loops until it is told to stop: `Sender`.
--   * src/Coroutine.cpp, coroutines by their keys over libaco: `Coroutine`; Coroutine/Registry is
--     the plain table of keys that a factory implements.
--   * src/File.cpp: `File`, with the life of a file in File/History; src/FileList.cpp with the
--     collection of the inputs in src/main.cpp: `FileList`; src/Config.cpp: `Config`, with the words
--     of the command line in Config/Getopt; src/Utils.cpp and src/Utils.hpp: `Utils`.
--   * src/main.cpp: `Main`, up to the start of the tasks and the wait for them; Main/Binding is
--     about the processors for the cores of the settings; Main/Whole is all of `main`, with the
--     threads running.
--   * `Base` has the names that the modules share: numbers, lists, texts, and the live handles of a
--     resource, whose release twice or release of a foreign one is the missing result.
--
-- How they interact: the main thread collects the inputs from the settings, makes one task per
-- core, starts them, waits for the pool's semaphore or for some seconds, and joins the threads;
-- FFmpeg reads through the callback of a task in `open` and `demux`, and `decode` hands frames to
-- the other, which read and write the files of the task; FFmpeg allocates through the allocator,
-- which counts in the decoder. The owner of a decoder in src/Task.cpp, `decode_routine`, is
-- disabled by `#if 0`. Task/Routine models it as it is written, from the constructors of the
-- decoder and the output file to their destructors; the names that it uses without declaring them
-- (the task `obj`, the settings, the path of the input and its size, the two times) are
-- arguments.
--
-- Conventions: an unsigned machine integer wraps by `%`; a signed one is a `ℤ` that is assumed
-- not to overflow, but for the offsets in a picture, whose overflow is undefined. Undefined
-- behaviour, a violated assertion of libaco and a wait without end are `none`.
--
-- Bounds and fuel: `decode` runs over the answers of the codec and returns at the first that is
-- not 0; the row loop of `on_recv_frame` needs one round more than the picture has rows; the loop
-- over line sizes one round more than the binary logarithm of the alignment; `lowest_bit` 31
-- rounds, for an `int`; `decimal` ten digits; the wait of the main thread one round more than the
-- seconds that it lasts.
--
-- The loop of `decode_routine` runs over its turns, each with what FFmpeg answers and whether the
-- task was told to stop; `none` is a loop that has not ended with them. The joins of `clear` take
-- one tick of the scheduler each time that they wait, and FFmpeg's reads of the input one call
-- more than the file has bytes.
--
-- Not modelled: FFmpeg, libaco and the system calls, whose answers are arguments (of `getopt`
-- Config/Getopt has what the C library documents); the output of `Config::show`, `debug_show` and
-- `MARK`; `ff_init` and `ff_release`, which only call FFmpeg; the disabled code of
-- src/Decoder.cpp; `jmem_get_max_size`, which answers 0; the copy of libaco.
pub mod Base
pub mod Mem
pub mod Utils
pub mod Av
pub mod Decoder
pub mod File
pub mod FileList
pub mod Task
pub mod TaskPool
pub mod Config
pub mod Coroutine
pub mod Main
pub mod Sender
