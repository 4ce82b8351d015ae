-- ===== src/Lib.antt =====
-- Verification of ai-daemon, a system service that runs language models for the other programs of
-- a machine (crates/ai-daemon). Its D-Bus manager opens sessions and hands out a socket; a worker
-- reads a request from it, asks the policy engine whether the identity may, waits for a slot and
-- for cache memory from the scheduler, and has a backend process generate.
--
-- What is modelled, by file:
--   Prelude             lists, maps with string keys, sorting and texts that the parts share.
--   Sched               crates/ai-daemon/src/sched.rs, the scheduler's state. Sched/Slots has its
--                       slots (admit, is_turn, release, attach, charge), Sched/Kv its cache budget
--                       (reserve_kv, mark_idle, release_kv). Sched/Steps has every call as a step
--                       of a relation, and what is reachable by them. A waiting thread that wakes
--                       is a step of its own, so that any interleaving of callers is a sequence of
--                       steps; the mutex makes each step atomic. Calls of the backend through the
--                       Preemptor trait are the signals that a step emits, in order.
--   Policy              crates/ai-daemon/src/policy.rs, with the configuration it reads
--                       (crates/ai-daemon/src/config.rs). Policy has the limits of an identity,
--                       Policy/Grants the grant table and `check`, Policy/Spend the spend ledger,
--                       prices and the ceiling, Policy/Sessions the session counts.
--   Manager             crates/ai-daemon/src/dbusapi.rs: `attenuate`, and `create_session` with the
--                       guard `SessionSlot` that gives a slot back on failure. Manager/Create has
--                       what each way out of `create_session` does to the counts, and
--                       Manager/Holding sets the counts beside the sessions that live, over any
--                       requests and ends (crates/ai-daemon/src/session.rs, `retire`).
--   Audit               crates/ai-daemon/src/audit.rs: the hash-chained log. Audit has the records,
--                       the writer and the verifier; Audit/Chain relates writer and verifier,
--                       Audit/Lost is about a record whose write fails, and Audit/Tamper is about
--                       the files that the verifier accepts.
--   Wire                crates/ai-daemon-proto/src/frame.rs: frames on a stream of bytes, with the
--                       loop of crates/ai-daemon/src/decode.rs that gathers a payload. Wire/Header
--                       has one frame, Wire/Payload a payload over several, Wire/Ends the loop on
--                       any stream.
--   Session             crates/ai-daemon/src/session.rs, the worker of a session: the hello and the
--                       tool answers (`dispatch`, `answer_tools`), in Session/Attachments `attach`
--                       with the budget it checks, which takes its payload off the frames of Wire.
--   Identity crates/ai-daemon/src/identity.rs: the unit of a process from its cgroup, and in
--                       Identity/Key the key that grants are kept by. Identity/Launches is about
--                       what a key keeps of one launch of a program. Its texts are lists of the
--                       characters' codes.
--   Grammar crates/ai-daemon/src/grammar.rs, `object_body`: the rule of an object in the
--                       grammar that constrains tool calls, and in Grammar/Objects its language.
--   Registry crates/ai-daemon/src/registry.rs: the model store and its calls, on maps from
--                       file names. Registry/Stores says what holds of a store, Registry/Reading
--                       what a reading of the manifests finds, Registry/Removal when a removal
--                       keeps the store, Registry/Loss when it does not, Registry/Steps is about
--                       any history of calls, and Registry/Resolving about what is found after an
--                       installation.
--   Decoder             crates/ai-daemon-decode/src/main.rs, the parsers of the sandboxed decoder.
--                       Decoder/Bits, Decoder/Huffman, Decoder/Block and Decoder/Inflate are its
--                       `mod inflate`, Decoder/Png its `mod png`, Decoder/Wav its `mod wav`;
--                       Decoder/Outcome says how a parser may end. A read or a slice out of
--                       bounds is the fault `panicked`.
--
-- How values are modelled. An unsigned integer is a natural number, with its wrap-around or
-- saturation written out where the source can reach it (`add_u64`, `% u64_mod`, a saturating sum).
-- A `HashMap` is an association list; where the source iterates over one, the order is that list's.
-- `Instant` is a number that the caller passes. What the source uses of f64 and of f32 are the
-- records `Policy.Floats` and `Decoder.Wav.Floats`, arguments of the definitions. Polkit is a
-- function from an action to an answer, and the hash of the audit chain is a function on lines.
-- What a write to the audit log brings into the file is an argument of `append` (`Wrote`). An error
-- that the source formats as text is a constructor that carries what the text reports, or `false`.
--
-- Loops are structural recursion, but for those that take fuel: `chunks` as much as the payload has
-- bytes; `gather` as an argument, where one round more than the stream has bytes is enough (each
-- round reads a frame, and a frame has a header); the loops of `inflate` a round for each bit of
-- the input and one more (each round reads a bit); and `read_chunks` and `read_wave_chunks` a round
-- for each byte of the file (each round passes a chunk's header). An admission that waits is one
-- step for each time it looks. Tickets are u64, and a step that would exhaust them is left out.
--
-- The registry's directories hold manifests as they parse: a file that does not is as one that is
-- not there. Which operations on the file system succeed is an argument (`Io`): the renames, writes
-- and removals, and the readings of the system's store (`Reads`), where a directory that cannot be
-- listed counts as empty and a file that cannot be read as missing, as the source has it. A staged
-- file that is there is taken to be readable, and a caller's own store is given as what can be read
-- of it. The hash of a file is an argument. A model's name is taken to name one file, which
-- crates/ai-daemon/src/install.rs checks.
--
-- What is not modelled: D-Bus, sockets, processes and files themselves; how a session's worker
-- runs a turn; the other rules of a grammar, the backends, the portal, the HTTP shim and
-- the command-line tools; the token bucket, whose arithmetic is floating-point; and the limits of
-- memory, so that a list has any length.
pub mod Prelude
pub mod Sched
pub mod Policy
pub mod Grammar
pub mod Identity
pub mod Manager
pub mod Audit
pub mod Wire
pub mod Session
pub mod Registry
pub mod Decoder
