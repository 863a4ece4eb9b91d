-- ===== src/Lib.antt =====
-- BLuEMan: a verification of the Bluetooth Low Energy fuzzer in blueman-main: its packet mutators, the
-- packet record, the coverage maps, the corpus, the loops that intercept packets, run the target
-- and judge how it ended, the processes, and the radio of the target that the patch
-- patch/bsim.patch changes.
--
-- The program runs a target and an attacker over a simulated radio, takes their packets from a
-- message queue, mutates them, and keeps the runs that reach new code. `fuzz_one` (btfuzz.c) has a
-- child process hand each packet to the `mutate_pkt` of the mutator that is linked in and record
-- it (pkt_record.c); at the end of a run `save_if_interesting` (coverage.c) compares the coverage
-- map with what was seen before, and files a new run in the corpus queue, a circular list (utils.c).
--
-- Prelude       names and helpers: C arrays as lists, little-endian words, Boolean tests
-- Bits          laws of `&` and `|` on the natural numbers that stand for machine words
-- Machine       the state that the mutators change: a block of bytes and a stream of the numbers
--               that `rand()` will return. Loads and stores outside the block, and `% 0`, are a
--               fault. Machine/Total is total correctness; Machine/Touches is the rule set for the
--               commands that stay inside a region
-- Packet        `BLE_pkt` (blueman-main/include/interceptor.h) as its 279 packed bytes;
--               the functions `get_upper_layer_type_for_zephyr` and `is_data_packet`, which
--               two mutators share
-- Strategy      blueman-main/mutator/mutate_strategy.c, function by function
-- RandomMutator blueman-main/mutator/mutator_random.c. The code from the random header byte on is
--               the same in both of its mutators and is one definition, `rewrite`
-- FieldMutator  blueman-main/mutator/mutator_full_stack2.c. FieldMutator/Selection is its packet
--               selection
-- AflMutator    blueman-main/mutator/mutator_afl4.c, with the reachable cases of the `switch`;
--               AflMutator/Blocks has the cases that change the length, which are not reached
-- PktRecord     blueman-main/pkt_record.c: the bounded record, and both of its file formats as
--               lists of bytes. PktRecord/Mapped is `mmap_seq_buf_file`
-- Coverage      the maps of blueman-main/coverage.c as lists of 64-bit words; Coverage/Setup is how they
--               start
-- LinkedList    the lists of blueman-main/utils.c, on a heap of `next` and `prev` fields
-- Corpus        the queue of blueman-main/coverage.c and `save_if_interesting`. Corpus/Loading reads
--               the seed directory; Corpus/Cycle is the walk of `start_fuzzer`
--               (blueman-main/btfuzz.c) over the queue
-- Fuzzer        `copy_ble_pkt` of blueman-main/btfuzz.c, which replays a packet of the corpus
-- Ending        how a piece of btfuzz.c ends: with a value, never, in a bad access, or in an `exit`
-- Mutator       the interface of blueman-main/include/mutator/mutator.h: `mutate_pkt`, what its
--               caller may rely on, and the change between a packet's fields and its bytes.
--               Mutator/Linked fills it with each of the three mutators. Mutator/Seeding is `mutator_init` and `pre_mutate`
-- Intercept     `intercept_ble_packet_for_fuzz` of blueman-main/btfuzz.c, for any mutator, and the
--               acknowledgement of blueman-main/interceptor.c; the message queue is the list of the
--               packets that will arrive and the list of the answers. Intercept/Collect is
--               `intercept_ble_packet_for_init_corpus`; Intercept/Feedback follows a run's record
--               through its file to the corpus of a later run; Intercept/Alarm is `timeouthandler`,
--               which ends a run that waits
-- Radio         `hijack_packet_recorder` of patch/bsim.patch, which sends what the target receives and
--               takes the answer. Radio/Lockstep joins it with Intercept; Radio/Queue has the two as
--               processes that take steps, over the message queue, with `recv_ble_pkt` and
--               `recv_ble_pkt_ack` of blueman-main/interceptor.c
-- Copying       `my_copy_file_range` and `str_concat` of blueman-main/utils.c
-- Execution     `fuzz_one` of blueman-main/btfuzz.c, with `wait_for_target` and the functions that save
--               errors. Execution/Verdicts has the steps as relations, Execution/Files the error
--               files and the counters
-- Rounds        the loops of `start_fuzzer` of blueman-main/btfuzz.c; Rounds/Start is
--               `collect_init_corpus`, and Rounds/Whole puts both behind the variables that
--               `init_fuzzer` and `setup_shm` fill. Rounds/Position is where the walk stands
--               and which file it opens there
-- Processes     `run_ble_target` and the like of blueman-main/btfuzz.c, and how `fuzz_one` and
--               `cleanup_fuzzer_env` end the processes, over an interface of `fork`, `kill` and
--               `waitpid`
-- CoverageLogger  blueman-main/coverage_logger/coverage_logger.c
--
-- An execution joins these parts: the packets that Intercept records are the `recorded` packets of a
-- `Trial`, which Execution adds to the record as the interceptor does (`add_all`); Execution calls
-- Copying for the logs and Corpus for the run; `end_processes` of Processes has the calls of `fuzz_one`
-- that Execution leaves to its input; Rounds calls Execution with one trial after the other,
-- and CoverageLogger after each round.
--
-- Numbers are natural numbers, and the wrap-around of each C type is written out. An `int32_t` in
-- the field mutator is its bit pattern. Loops whose count is known first are structural. Three loops
-- have fuel. `count_from` walks a ring, and one round more than the ring has nodes is enough.
-- `load_pkts` reads a file, and gets the file's length: every round reads at least 24 bytes.
-- `cycle_from` gets the rounds as input, and one for each entry of the queue is enough.
-- `total_from` and the byte loops recurse on what is left, the interception loops on the packets that
-- will arrive, and `write_loop` on the answers of the system. `fuzz_rounds` gets the number of rounds.
--
-- Outside the model: `rand()` is any stream of numbers; `float` arithmetic, `snprintf`, `malloc`, the
-- clock, the JSON printer, and what processes and the system do are parameters or input; the message
-- queue and the process table are interfaces with the laws of their manual, and each
-- has an instance among the tests. Not modelled are the descriptors of the logs, the identifiers of the
-- shared memory that `setup_shm` asks for and that the clean-up removes, `check_crash_handling`, which is
-- not called, `munmap_seq_buf_file` and `destroy_pkt_seq_buf`, which only unmap, the recursive removal
-- and the clock of utils.c, the simulator that the radio belongs to, the other patches of the targets,
-- the plots and the scripts. Failures of `fopen`, of the `open` of the seeds and of the `mmap` of a corpus end
-- the process or are only reported, and are left out; the `open` of the file of a queue entry is in
-- Rounds, and a file that is not there ends the process. `main` and the part of `init_fuzzer` that
-- makes the directories, the message queue, the handlers of signals and the stack of the interceptor
-- are system calls whose failures the code does not look at, or only reports. The alarm is
-- taken to end only runs that do not return; in Execution a run that it cuts short is a `Trial` with
-- fewer recorded packets.
pub mod AflMutator
pub mod Bits
pub mod Copying
pub mod Corpus
pub mod Coverage
pub mod CoverageLogger
pub mod Ending
pub mod Execution
pub mod FieldMutator
pub mod Fuzzer
pub mod Intercept
pub mod LinkedList
pub mod Machine
pub mod Mutator
pub mod Packet
pub mod PktRecord
pub mod Prelude
pub mod Processes
pub mod Radio
pub mod RandomMutator
pub mod Rounds
pub mod Strategy
