-- ===== src/Lib.antt =====
-- Crossa: a small language for network requests (.cra files), its compiler and its native runtime.
-- The compiler turns source text into tokens (src/compiler/lexer) and these into a tree, an IR and
-- Kotlin, Swift or native code; the linker (src/compiler/project) first joins a source file and all that
-- it imports. The runtime runs the IR: its scheduler
-- (src/runtime/scheduler) runs tasks on worker threads, each with a request handle through which it can
-- be cancelled (src/runtime/RequestHandle.cpp); a network task builds a request
-- (src/network/request), lets the interceptor complete and log it (src/network/NetworkInterceptor.cpp),
-- sends it, again if need be (src/network/NetworkEngine.cpp), and parses the answer as JSON (src/network/json), polling the handle as it goes.
--
-- Files and code:
--   Prelude: Boolean tests, lists measured by native numbers, results with postconditions.
--   Json/Value, Json/Cursor, Json/Strings, Json/Parser: JsonValue.cpp and JsonParser.cpp. The parser's
--     `current_`, `nextCancellationCheck_` and the number of its polls are a `Pos`; the bytes from
--     `current_` on are a list. Its functions have the names of the methods; `items_loop`,
--     `fields_loop`, `string_loop`, `hex_loop` are the loops inside them.
--   Json/Serializer: JsonSerializer.cpp. Json/Shape: depth and well-formed values.
--   Json/Quiet, Json/RoundTrip: the parser on what the serializer wrote, and a handle that nobody
--     cancels. Json/Ensures, Json/Sound: the parser on any input. Json/Utf8: `appendCodePoint`.
--   Lexer/Token, Lexer/Scan, Lexer/Tokenize: TokenType.h, Token.h and Lexer.cpp. `currentOffset_`,
--     `line_` and `column_` are a `Cursor`. Lexer/Moves, Lexer/Tiles, Lexer/Position: the tokens
--     against the text.
--   Syntax: the tree, the classes of include/crossa/compiler/ast. All nodes of a file share its path, so a
--     location is a line and a column.
--   Parser/Cursor, Parser/Strings, Parser/Types, Parser/Expressions, Parser/Primary, Parser/Statements,
--     Parser/Declarations: src/compiler/parser/Parser.cpp, with the names of its methods. The cursor is
--     the list of the tokens from `current_` on; `recursiveParseDepth_` is an argument. The routines run on
--     fuel, one more than the tokens, since each takes a token before it calls itself.
--   Parser/Grammar: the grammar of the language as relations on tokens and trees. Parser/Sound
--     and Parser/Complete: each routine against its rules, in both directions. Parser/Unit,
--     Parser/Equivalence, Parser/FrontEnd: the whole parser, alone and behind the lexer.
--     Parser/Nesting: the limit on the depth. Parser/Literals, Parser/Segments: string literals.
--   Network/Url: UrlUtils.cpp and the query of RequestBuilder.cpp, with Url/Encoding.
--   Network/Header: the headers of PreparedRequest.cpp, with Header/Laws.
--   Network/Interceptor: NetworkInterceptor.cpp, with Interceptor/Privacy and Interceptor/Shell, which
--     holds the quoting rules of a POSIX shell. Network/Header/Added: the headers that it adds.
--   Network/Engine: `executePrepared` of NetworkEngine.cpp, with Engine/Attempts, Engine/Events,
--     Engine/Reports and Engine/Outcome; what the interceptor and the telemetry log are events, behind the
--     switches of NetworkInterceptor.cpp and `emitTelemetry`. Its
--     loop runs on fuel, two more than the attempts of the policy, since a refreshed token adds one.
--   Runtime/Handle: RequestHandle.cpp and CrossaState.h. Runtime/Task: `runTask` of TaskScheduler.cpp,
--     one atomic operation at a time, with Task/Linear and Task/Ends.
--   Runtime/Scheduler: SchedulerOptions.cpp and the critical sections of TaskScheduler.cpp, with
--     Scheduler/Limits, Scheduler/Lost and Scheduler/Reachable, the steps of all threads.
--   Linker/Index, Linker/Visit: ProjectLinker.cpp (src/compiler/project), with Index/Bounds and
--     Linker/Facts, Linker/Modules and Linker/Order. The visit states are a function from paths; the walk runs on fuel, one more than
--     the limit on the depth of imports, which each visit checks before it goes deeper.
--   Interpreter/Int: integers, and the operators of C++ on `int64_t`, which are undefined where they
--     overflow. Interpreter/Arithmetic: `evaluateArithmetic` of src/runtime/IrInterpreter.cpp. Its guards
--     are in Interpreter/Guards, and Interpreter/Overflow compares it with the integers.
--   Interpreter/Values, Interpreter/Typing, Interpreter/Evaluate: the kinds of RuntimeValue.h and
--     SemanticType.h, the types that SemanticAnalyzer.cpp gives to operators, and their evaluation in
--     IrInterpreter.cpp, where an operand is what its own evaluation ends with. Interpreter/Inversion,
--     Interpreter/Operands, Interpreter/Soundness: the types against the values. The arithmetic of
--     `double` is a parameter, and so are the models and the lists, which no operator reads.
--   Tests modules: concrete runs.
--
-- Conventions: a text is its list of bytes, and a byte is a number; exceptions are results, whose
-- errors keep the place and the reason; only the parser of the language keeps the message text. Loops over a text run on fuel, the
-- length of the text that is left and one more, since each round reads a byte; `out_of_fuel` is an
-- error of the model only. `parse_value` runs on the length of the text for its recursion too.
-- Offsets, lines and columns are not bounded: a text in memory is shorter than 2 ^ 64.
-- `RequestHandle` is seen by the JSON parser as a function from the number of the poll to its answer.
-- The tasks that the scheduler runs are parameters: a task is the outcome of its run. So is the parsing
-- of an imported source in the linker, and the transport and the refresh of a token in the network
-- engine, which leaves out the delays between attempts.
--
-- Not modelled: the rest of the semantic analyzer, of the IR and of its interpreter, the
-- response decoder and the code generators, for their size; the transport, the
-- packaging, the bindings, the command line and the logs, which are input and output.
pub mod Prelude
pub mod Json
pub mod Lexer
pub mod Network
pub mod Runtime
pub mod Linker
pub mod Syntax
pub mod Parser
pub mod Interpreter
