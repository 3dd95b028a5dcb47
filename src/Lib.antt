-- ===== src/Lib.antt =====
-- Verification of the goal-directed fuzzer (fuzzer/ of the repository).
--
-- The fuzzer evolves a population of inputs. MemoryManager (fuzzer/fuzzer/memory-manager.cpp) owns
-- their bytes: numbered slots with a reference count, a length and a pointer to a buffer. An
-- Individual (fuzzer/fuzzer/evolution.cpp) is a handle on a slot. Mutators (fuzzer/fuzzer/mutations.cpp) and cross-overs
-- (fuzzer/fuzzer/cross-overs.cpp) clone an individual and change the bytes of the clone; a mating
-- strategy (fuzzer/fuzzer/mating-strategy.cpp) says whom to cross. The handler
-- (fuzzer/fuzzer/handler.cpp) has the commander (fuzzer/fuzzer/commander.cpp) start the instrumented
-- program on each individual of a generation, while one thread watches the processes and another takes
-- up their traces. The instrumented program
-- (fuzzer/runtime/runtime.cpp) buffers trace elements and flushes them into a container in shared memory
-- (fuzzer/shared-data/shared-data.cpp). The fuzzer adds the traces to its coverage (fuzzer/fuzzer/knowledge.cpp),
-- which looks blocks up in the store of elements (fuzzer/common/store.cpp) and scores them. Scores are
-- aggregated into measures (fuzzer/fuzzer/measure.cpp), by which the best individuals are kept.
--
-- Which file models what:
--   Prelude, Result     shared names, tests on numbers, lists, machine words; faults and total results
--   NameMap             std::map with strings as keys
--   OrderedMap          std::map with numeric keys
--   Heap                the C++ heap with checked access; every undefined access is a fault
--   Memory              MemoryManager: create, dismiss, copy, resize_buffer, insert_bytes, remove_bytes,
--                       increase_count, decrease_count, force_clean, cleanup_all; the invariant is
--                       Memory.Invariant.IsValid, and the abstract view of a slot its bytes, `contents`
--   Random              utils::Rand (fuzzer/fuzzer/utils.cpp); the draws are a parameter
--   Individual          Individual: copies, clone, assignment, comparison, set
--   Mutation            the mutators; Mutation.Single those of one byte, Mutation.Block those of runs,
--                       Mutation.Digits the one of decimal numbers; Mutation.Choice is
--                       MutationHandler and Evolver::get_and_mutate of evolution.cpp
--   Crossover           SinglePointCrossOver, UniformCrossOver, NPointsCrossOver
--   Store               elements.h and store.cpp: elements and the numbering of sources
--   Trace               trace elements and Container; to_unique_block_id of runtime-trace-service/main.cpp
--   Runtime             the calls of the instrumentation, add, flush and the end of the process
--   Measure             score_t, measure_t and their comparisons
--   Coverage            ProgramKnowledge and Coverage
--   Evolution           FitnessStrategy, best_individuals_t, Population, the active slots;
--                       Evolution.Breeding has the parts of Evolver::evolve that make individuals and the
--                       choices of the handlers, Evolution.Generation evolve and global_perturbation.
--                       Evolution.Stock counts the slot numbers and references that they use up, and
--                       Evolution.Crossing is what they need of a cross-over
--   Mating              ElitismMatingStrategy, UniformMatingStrategy, ClosenessMatingStrategy
--   Mocker              generate_random_trace (fuzzer/fuzzer/mocker.cpp)
--   Processes           ProcessStatuses, TimeoutWatcher and get_pid_status of commander.h and commander.cpp
--   Commander           Commander: call, get_testcase_id, processed_pid, clear
--   Handler             FuzzerHandler::single_threaded_loop, FuzzerProcessMonitor,
--                       FuzzerTraceRetriever; Handler.Steps interleaves them: a round of a thread is one
--                       step of the relation `Step`, and `Reach` is a sequence of steps. A process is
--                       taken to have a number that stands in none of the tables
--   CrashReader         UICrashReader of the user interface: the crashes that are found on disk
--   CrashAnalyzer       to_hex, get_crashed_trace, create_crash_id, get_testcase_id and handle_dump_file of
--                       the crash analyzer; max_number_crash_per_kind stands in CrashReader
--   Escape              shell_escape and html_escape of utils.cpp, json_escape of the trace service
--   Tests               concrete states
--
-- State is passed explicitly. An operation that C++ can leave undefined returns a Result, and
-- `Returns P r` says that it returns and that the result satisfies P. Words of 32 and 64 bits
-- wrap as in the source, or the definition faults where a loop over a wrapping index does not
-- end; the theorems name the sizes below which they do not. The number of individuals in a mating
-- strategy is not cut to 32 bits: populations are taken to be smaller than 2 ^ 32. Parameters
-- stand for what is not in the repository or is a copy of another project: the answers of `new`,
-- the draws of the generator, std::random_shuffle, the graph of Boost, the LRU cache, long double
-- arithmetic, the hash of a buffer, the scores of pairs of inputs by SeqAn, the outcome of
-- starting a process, the answers of waitpid and what the timers read.
--
-- Fuel: pick_other (the loop of SwapByteMutator that draws a second index) and pick_from (the loop of
-- Rand::pick) draw until a condition holds, so their rounds are bounded by an argument. For
-- pick_other it is enough to have one round more than draws are needed, for pick_from one more than the
-- draws among which there are enough different numbers, and new_generation takes a bound that is
-- enough wherever the generator stands. mutate_until, the loop of
-- get_and_mutate, needs one round for an individual that has bytes. All other loops are
-- structural, or count the bytes that are left; decimal_from has 20 rounds, the digits of a
-- number of 64 bits, and hex_from 16.
--
-- Not modelled: the user interface but for the crashes found on disk, the JSON and the files of the
-- crash analyzer, the command line and the environment of Commander::Impl, and of the handler
-- initialize, init_seeds, isolated_evaluation, the mocked branch of its loop and the threads of the
-- user interface; the clang pass, the alignment of sequences and the cross-over that uses it, the
-- seeds, serialization and logging.
pub mod Prelude
pub mod Result
pub mod OrderedMap
pub mod NameMap
pub mod Heap
pub mod Memory
pub mod Random
pub mod Individual
pub mod Mutation
pub mod Crossover
pub mod Store
pub mod Trace
pub mod Coverage
pub mod Measure
pub mod Evolution
pub mod Mating
pub mod Mocker
pub mod Processes
pub mod Commander
pub mod Handler
pub mod Runtime
pub mod CrashReader
pub mod CrashAnalyzer
pub mod Escape
pub mod Tests
