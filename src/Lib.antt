-- ===== src/Lib.antt =====
-- vextra: file synchronisation between two file systems, one of which may be behind an agent that a
-- connection reaches. A plan is made from the listings of both sides, guarded, and executed; large
-- files are sent as the blocks whose digests differ.
--
-- The parts, the code they model, and how they interact:
--   Entry, Fs     fs.go: entries, and the interfaces FS and Writer as a record of operations over a
--                 world; a local and a remote file system are values of it.
--   Path          what the code uses of Go's package path: Clean, Dir, Base, Join.
--   Listing       engine.go, validRel and checkEntries: which listings of a peer are accepted.
--   Excludes      excludes.go: patterns, and what they keep out of a listing.
--   Plan, Build   engine.go: classify, Plan.finish, checkSafety; BuildPlan with its order of deletions.
--   Delta         engine.go, blockSizeFor and diffBlocks; localfs.go, computeSigs.
--   Codec         codec.go: compression of blocks, and the memory of what was worth it.
--   Wire          proto.go: Msg, writeFrame and readFrame.
--   Engine        engine.go: the transfers, over two values of Fs.
--   Execute, Sync engine.go: Execute with its queues, EstimateDeltas, and Run.
--   Server        server.go: handle, reply and the table of open writers over a value of Fs; codeFor
--                 of proto.go and parseDigest of hash.go.
--   Conn          proto.go, Conn: calls that goroutines make over one pair of streams, as a relation of
--                 steps (open a call, send its request, read a frame, fail).
--   Remote        remotefs.go: RemoteFS as a value of Fs over a call; Direct is the call over an agent that
--                 handles each request at once, through the frames of Wire, and Served compares the client with what is served.
--   Os, Local     localfs.go: LocalFS as a value of Fs over an interface of the operating system, with its
--                 confinement to a root; Files has the open files and localWriter.
--   Transport     transport.go: ParseEndpoint and waitMagic; Ssh has ParseSSHCommand.
--   Config        config.go: the configuration, its file format and where it is looked for, with
--                 parseSize of util.go.
--   Args, Util    util.go: splitArgs; isYes, expandTilde, humanBytes and cfgSize.
--   Budget        util.go, byteSem: the bytes in flight, as a relation of steps of the goroutines.
--   Flags         main.go: the flags of each command, and parseFlags over the package flag.
--   Machine       what the commands call of Go's libraries and of the operating system, as a record.
--   Session       transport.go, Session: the ssh command of a run, and a connection for each host.
--   Settings      main.go, buildOptions and buildExcludes: the options of a run.
--   Main          main.go: run, the commands and the exit codes; a copy finds its two sides in a Session
--                 and calls Sync.
--   Shell         shell.go: the session of vx connect. Columns has the listings, and Commands has exec,
--                 the copies, which call Sync, and RunShell.
--   Agent         main.go, cmdAgent: Local served by Server/Serve, the loop of Serve of server.go.
--   Base          shared types and lemmas: bytes, integers, maps, computations that may fail.
--   Tests         the theorems at concrete data.
--
-- A text and a file's content are lists of bytes. Sizes of files are natural numbers, as a file system
-- reports them; offsets, times and the integers of messages are integers. Sums of an int64 are
-- unbounded, but for Plan.bytes, whose wrap-around is written out, as is that of the handles and of
-- the misses of a codec. A stateful operation is a function from a world to a result and a world.
--
-- Loops that are not structural run on fuel. The walk to the ancestors of a path has as much as the
-- path has bytes and one more, and each step takes a byte away; that of checkEscape has as much as the
-- path has bytes, and starts at an absolute path. The loop of computeSigs has one more than the input
-- has bytes, and each round reads a byte or ends; the loop of blockSizeFor has seven rounds, and six
-- doublings lead from 64 KiB to 4 MiB. The limit of waitMagic is that of the source. The loop of
-- parseFlags has one round more than there are arguments, each of which takes an argument; that of
-- RunShell one more than the input has bytes, and each line takes a byte; that of Serve likewise, and
-- each frame takes bytes. The loop of humanBytes has seven rounds, and an int64 takes six at most.
--
-- Parameters: path.Match, JSON, DEFLATE, SHA-256, hexadecimal digits, the numbers and Booleans of
-- strconv, the package flag, the verbs of fmt, strings.ToLower and strings.Fields, the operating system
-- (a record of operations), the dial of a connection, the names of temporary files and the texts of
-- errors. Elsewhere letters are put in lower or upper case in ASCII only. Goroutines are modelled by an
-- order: of the blocks of a file, of the work items of a plan, of the requests of an agent, and of the
-- steps of a connection or of a budget of bytes. In Remote/Direct a request is handled when it is sent,
-- and a call whose frame is not written, or whose response is not, returns the error of the connection. Of a connection, each section that holds its lock is one
-- step; the two of a failed send, and the closing of the channels behind a failure, belong to the step
-- before them. The outcome "unsent" of a call stands for its return at a failed send. Ids are counted
-- modulo 2 ^ 32. The answer that a person gives to the question about deletions is the next line of the
-- input, and is taken from it only if the question is asked.
--
-- Not modelled: the bandwidth limit, the sum of the bytes on the wire, and all output but the lines of
-- the shell's listings; ui.go; closing the connections at the end of a command; the 64 requests that an
-- agent answers at once; the start of ssh and the installation at the other side (transport.go), which
-- are processes of the operating system: install-remote, like agent, is an argument of Main.run.
pub mod Base
pub mod Delta
pub mod Path
pub mod Entry
pub mod Listing
pub mod Excludes
pub mod Fs
pub mod Plan
pub mod Codec
pub mod Wire
pub mod Build
pub mod Engine
pub mod Execute
pub mod Server
pub mod Tests
pub mod Args
pub mod Sync
pub mod Remote
pub mod Os
pub mod Local
pub mod Transport
pub mod Config
pub mod Conn
pub mod Util
pub mod Budget
pub mod Flags
pub mod Machine
pub mod Session
pub mod Settings
pub mod Shell
pub mod Main
pub mod Agent
