-- ===== src/Lib.antt =====
-- Models of the planning tools of the repository: the library of .opencode/get-shit-done/bin and
-- the hooks of .opencode/hooks. Commands of the library find their phase by its number
-- (PhaseNum, PhaseDir), after their arguments have been checked (Security), and change the planning
-- files under a lock (Lock), from a configuration that is migrated as it is loaded (Config/Load). The
-- hooks run beside them: the context monitor after each tool call, the prompt guard before a write.
--
-- Files:
--   Base, Text, Json     numbers and lists; texts with the string functions of the language; JSON
--                        values with reading, writing and spreading of properties
--   ContextMonitor       .opencode/hooks/gsd-context-monitor.js: `run_hook` is the handler of `end`
--                        on the warn file, `on_metrics` and `debounce` its later parts
--   PhaseNum             .opencode/get-shit-done/bin/lib/core.cjs: `normalizePhaseName` and
--                        `comparePhaseNum` on the groups of their pattern
--   Sort                 the sort of the language with a comparison function
--   Slug                 core.cjs: `generateSlugInternal`
--   PhaseDir             core.cjs: `readSubdirectories`, `getPhaseFileStats`, `searchPhaseInDir`,
--                        `findPhaseInternal`, `planningDir`
--   ProjectRoot          core.cjs: `findProjectRoot`
--   Markdown             core.cjs: `normalizeMd`
--   ActiveWorkstream     core.cjs: `getActiveWorkstream`, `setActiveWorkstream`
--   Workstream           .opencode/get-shit-done/bin/lib/workstream.cjs, on the planning directory
--                        as a record: Migrate, Create (with set and get), Complete with Archive,
--                        Reports and Progress; Move has the loops of renames, and Router the case
--                        `workstream` of .opencode/get-shit-done/bin/gsd-tools.cjs
--   Models               .opencode/get-shit-done/bin/lib/model-profiles.cjs, and core.cjs:
--                        `resolveModelInternal`
--   Security             .opencode/get-shit-done/bin/lib/security.cjs: `validateShellArg`,
--                        `validateFieldName`, `validatePhaseNumber`; Security/Paths: `validatePath`
--   Security/Injection   security.cjs: `scanForInjection`; Injection/Sanitize: `sanitizeForPrompt`
--                        and `sanitizeForDisplay`
--   PromptGuard          .opencode/hooks/gsd-prompt-guard.js: `run_guard` is the handler of `end`
--   Uat                  .opencode/get-shit-done/bin/lib/uat.cjs: reading of items; Uat/Current:
--                        `parseCurrentTest` and `cmdRenderCheckpoint`
--   Lock                 core.cjs: `withPlanningLock`, a step for each system call of one process
--   Config               .opencode/get-shit-done/bin/lib/config.cjs: `config_set` and `config_get` with
--                        the loops `set_path` and `read_path`; Config/NewProject:
--                        `buildNewProjectConfig`; Config/Load: `loadConfig` of core.cjs
--   Regex                a matcher that backtracks, for the patterns of the tools: `match`, `exec`,
--                        `test` and `replace`, with groups, look-ahead, and lazy repetition
--   State                .opencode/get-shit-done/bin/lib/state.cjs: `stateExtractField`,
--                        `stateReplaceField`, `stateReplaceFieldWithFallback`; below it a file for
--                        each group of commands on STATE.md: Update (`get`, `patch`, `update`),
--                        Position (`advance-plan`), Progress, Metric (with the session), Entries
--                        (decisions, blockers), Snapshot, Begin (`begin-phase`), Strip and Header
--                        (the header that is taken off and built again), Load (`load`, signals)
--   Milestone            core.cjs: `extractCurrentMilestone`, `replaceInCurrentMilestone`,
--                        `getRoadmapPhaseInternal`; Milestone/Info: `getMilestoneInfo` and
--                        `getMilestonePhaseFilter`
--   Phase                .opencode/get-shit-done/bin/lib/phase.cjs: listing and finding, with
--                        Phase/Decimals; Phase/Add, Phase/Remove with Phase/Rename and
--                        Phase/Renumber, and Phase/Complete: the commands that change the
--                        directories and the planning files
--   Roadmap              .opencode/get-shit-done/bin/lib/roadmap.cjs, with Roadmap/Progress and
--                        Roadmap/Analyze; Roadmap/Requirements: `cmdRequirementsMarkComplete` of
--                        .opencode/get-shit-done/bin/lib/milestone.cjs
--   Cli                  .opencode/get-shit-done/bin/gsd-tools.cjs: `parseNamedArgs`,
--                        `parseMultiwordArg`; Cli/Options: the options of `main`
--
-- A command is a function from the contents of the files that it reads to its answer, what it
-- prints or the message it fails with, and the contents that it writes. A text is a list of code
-- units. Numbers are exact, as they are in the runtime up to 2^53. Case mapping is that of ASCII.
-- Paths are those of POSIX systems. The order of texts in a locale (`locale_compare`), the
-- resolution of symbolic links (`realpath`), `Number`, `JSON.parse` and the rounding of a ratio to
-- per cents (`round_percent`) are parameters, as are the date and the time, and whether git
-- ignores a path; which renames of workstreams throw and what can be undone are parameters too; of
-- `realpath` it is assumed that its answers have no empty, `.` or `..` segment. What is read from the
-- text of a number that is written is a parameter as well (`write_number`), and so are the answers
-- about the directory of `--cwd` and its worktree; numbers in the files are finite. A file system
-- answers from a record that does not change during one search. In the lock the file's age and the
-- clock are read in one step, and the function under the lock does not fail with `EEXIST` itself.
--
-- Functions are structurally recursive, with fuel in these places: a repetition in a pattern and
-- the replacement of all matches have as many rounds as the text has units, since a round that
-- takes nothing is the last one; the loop that strips headers has as many, since each round takes
-- at least the marks of a header; a number has at most as many digits as its value; and among as
-- many names of an archive as there are archives and one, one is free.
--
-- Not modelled: `writeStateMd`, `syncStateFrontmatter` and `cmdStateJson` of state.cjs,
-- `cmdPhasePlanIndex` of phase.cjs, `cmdMilestoneComplete` of milestone.cjs and `cmdAuditUat` of
-- uat.cjs, which stand on the YAML of frontmatter.cjs or on I/O; frontmatter, verification,
-- template, `init` and profile commands; the rest of the command router and the other hooks of the tools;
-- output, git and network calls, which are I/O; and the server in Go of the same repository.
pub mod Base
pub mod Text
pub mod Json
pub mod ContextMonitor
pub mod PhaseNum
pub mod Sort
pub mod Slug
pub mod PhaseDir
pub mod Security
pub mod Lock
pub mod Config
pub mod Cli
pub mod State
pub mod ProjectRoot
pub mod Markdown
pub mod ActiveWorkstream
pub mod Models
pub mod Regex
pub mod Milestone
pub mod Phase
pub mod PromptGuard
pub mod Uat
pub mod Workstream
pub mod Roadmap
