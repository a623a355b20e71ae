-- ===== src/Lib.antt =====
-- VC4CL, an OpenCL 1.2 runtime for the VideoCore IV GPU of the Raspberry Pi.
--
-- The program is a shared library that implements the OpenCL API. An application creates command
-- queues, buffers and programs, sets the arguments of kernels, and enqueues commands. Each command is
-- an event with an action; one thread, the queue handler, runs the actions in the order of their
-- queueing, and a kernel's action fills a buffer with code and UNIFORMs and starts the QPUs on it.
-- The compiled code comes as a module of 64-bit words, whose headers say where the kernels lie.
--
-- Which file models which part, with the paths of the repository:
--   * Bitfield: src/Bitfield.h, entries of a word (setEntry, getEntry); its laws in Bitfield/Laws.
--   * Objects: src/Object.h and src/ObjectTracker.cpp, counts and the list of live objects.
--   * Binary: src/shared/BinaryHeader.h and .cpp, the stored form of modules. Bytes has the byte
--     containers, Reader the reading at a moving index, where an exception and a read past the end
--     are results. MetaData, ParamHeader, KernelHeader and ModuleHeader have the class of that name
--     with to_binary_data and from_binary_data; the Stored modules have the well-formedness that the
--     setters keep.
--   * Event: src/Event.h, src/Event.cpp and the counts of src/Object.h: callbacks, user events, the
--     profile and the wait list. Callbacks and User are on sequences of calls.
--   * Queue: src/queue_handler.cpp and CommandQueue::enqueueEvent. A Runtime has the events by number,
--     the buffer, and logs of the callbacks called and the actions run; handle_next is one iteration
--     of the loop of the handler's thread, so that a run is a sequence of iterations.
--   * CommandQueue: src/CommandQueue.cpp, the properties, and Event::getProfilingInfo.
--   * WorkSizes: src/Kernel.cpp, Kernel::setWorkGroupSizes.
--   * KernelArgs: src/Kernel.cpp, Kernel::setArg; KernelArgs/Tracked hands the bit set of the
--     arguments to WorkSizes; KernelArgs/Launch: Kernel::enqueueNDRange, with the buffers that it
--     allocates and tracks, and the loop of src/executor.cpp that looks them up for the UNIFORMs.
--   * Executor: src/executor.cpp, the size of the buffer, the UNIFORMs, and the loop over the
--     work-groups; Executor/Content has all words of the buffer: global data, stack frames, code,
--     UNIFORMs and launch messages.
--   * Buffer: src/Buffer.cpp, reading, writing, filling and copying: the checks of the enqueue
--     methods, and the actions on the memory; Buffer/SubBuffer: Buffer::createSubBuffer;
--     Buffer/Create: clCreateBuffer; Buffer/Rect: rectangular regions; Buffer/Mapping: mapping and
--     unmapping.
--   * Program: src/Program.cpp, Program::extractModuleInfo and the build status; Program/Build:
--     Program::compile and link over the compiler, which is the parameter Compiler, with buildInner
--     and its fellows in Inner and the API calls in Calls. A build in a thread is a function that the
--     call returns, applied to the program as it is when the thread runs.
--   * Texture: src/TextureFormat.h and .cpp, pitches and places of pixels.
--   * Prelude: names, integers, error codes and lemmas that these share.
--
-- The parts meet in the events: Buffer and Executor are actions, of which Queue sees the outcome
-- (a status or an exception); Executor takes its UNIFORM flags from Binary/KernelHeader, and its
-- sizes from WorkSizes.
--
-- Numbers are the native ones. Where the source has a size_t, which has 32 bits on the device, and a
-- caller gives the operands, the wrap-around is written out; the comments say where sizes are known
-- to be small. Loops are recursions on a list or a number. There is fuel in two places:
-- launches takes any fuel that is at least the number of work-groups, and fill_from has one step
-- for each byte, which is enough where the addresses do not wrap around, since a pattern has a byte
-- at least.
--
-- Not modelled: access to the hardware (src/hal), what a QPU does, locks and blocking
-- waits, getInfo queries and printing, images, contexts, devices and the tables of extensions; object
-- deletion is a count of 0, and what a destructor releases is a further step.
--
-- The compiler is another repository's (vc4c): its functions, and what the system allocates, are
-- parameters, and the theorems hold for all of them or name what they ask of them.
pub mod Prelude
pub mod Bitfield
pub mod Binary
pub mod Event
pub mod Queue
pub mod CommandQueue
pub mod Texture
pub mod KernelArgs
pub mod WorkSizes
pub mod Executor
pub mod Buffer
pub mod Program
pub mod Objects
