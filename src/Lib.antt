-- ===== src/Lib.antt =====
-- A model of Taskologic's core: the decisions of crates/taskologic-core, which the daemon applies and
-- the clients preview, and the rows that the daemon's crates/taskologicd/src/db/repo.rs changes.
--
-- The parts and their files (paths in crates/taskologic-core/src unless they are given in full):
-- Ids (ids.rs): row ids, base36 and short ids, the six characters that a barcode names a row by.
-- Barcode (barcode.rs): Barcode/Check is the check character of ISO 7064 MOD 37,36, Barcode/Payload
--   the text of a code (`ScanPayload::encode`, `parse`), Barcode/Detector the state machine that picks
--   codes out of keystrokes (`ScanDetector::push`, `expire`).
-- Deps (deps.rs): `creates_cycle` and `first_cycle`, asked before a dependency is saved.
-- Time (offset.rs): moments, lengths and offsets. Board (board.rs, `CardFields` of prefs.rs): boards,
--   their validation, and the removal of a column, with the part of `remove_column` of db/repo.rs
--   that applies it to the board.
-- Print (print.rs), Repeat (repeat.rs), Question (program.rs): what a task carries.
-- Schedule (repeat.rs): on which days a rule matches, and `next_fire_after`.
-- Template (template.rs): prefilled dates, cycles, and the order in which templates are stamped out.
-- Slips (print.rs): the jobs that are built for a task and their codes; Slips/Plans has the automatic
--   prints, the reminders, the dated rules and the people they print for.
-- Receipt (crates/taskologic-print/src/layout.rs): `wrap` and `fit`, text on narrow paper.
-- Control (control.rs): control codes. Control.antt has the commands and their spelling, Control/Names
--   and Control/Parse the parser, Control/Layout the symbology and the pieces of a wide code.
--   Control/Read joins them to the detector of Barcode: from the keys of a scanner back to the commands
--   that were printed.
-- Task (task.rs): tasks, drafts and their checks. NextInstance (repeat.rs): the copy of a repeating task.
-- Transition (transition.rs): moves, scans and clocks, decided from a board and a task.
-- Lifecycle (crates/taskologicd/src/db/repo.rs): what `apply_move`, `archive_task`,
--   `soft_delete_task` and `restore_task` make of a task's row, as steps in any order.
-- Permission (permission.rs): who may do what on a board and a task.
-- Stats (stats.rs): the time taken and the wall clock of a task's trail; Stats/Duration shows a duration.
-- Program (program.rs): the steps and runs of programs, and `react`, which decides what an event on a
--   run's task creates, dates and finishes. Program/Effect is its first half, Program/React the rest.
-- Client (crates/taskologic/src/control.rs): the commands that wait for a value or a task, and what
--   their values come to.
-- Prelude holds the names, lemmas and rule sets that these share.
--
-- Representation. A record is a struct, a data type an enum, an error a `Result` with the source's
-- errors. Ids and uids are natural numbers, since they are only compared. A string is its list of
-- code points. An i64 that is only compared is an integer without bounds. The numbers of ids.rs stay
-- below 36 ^ 6, the sums of barcode.rs below 73, and an offset's minutes are checked against the bound
-- of i64 as in the source; counts and versions are far from their bounds and grow without one here.
-- chrono's types are numbers, and its partial operations, the zone table and `str::to_lowercase` are
-- parameters: arguments, or the record `Program.Outside`.
-- A map from tasks to dependencies is an association list. Loops are recursion on their list; the
-- search of deps.rs has fuel, one round more than the graph has edges, and the walk of template.rs as
-- many levels as the graph has entries and two; `parse` of control.rs has a turn for each character and
-- one more (Control/Turns), and `wrap` a turn for each character of a word. Their theorems show that none runs out.
-- A cut of a string at a byte offset panics in Rust where the offset falls inside a character; the
-- parser of control codes has that as an outcome of its own, beside a command and an error.
-- What repeat.rs asks chrono about dates is the record `Schedule.Calendar`, and what chrono documents of
-- them, with the months of the Gregorian calendar, is `Schedule.Dates.Laws`. Schedule/Days says apart
-- from the code on which days a rule fires; Schedule/Local is `local_to_utc`, which program.rs shares.
--
-- Not modelled: rendering and the printers, the sections of a slip, preferences beyond the items named
-- above, the anchors of prefilled dates, the average of durations, validation of programs, the wire
-- protocol, the daemon's handlers, scheduler and SQL beyond those rows, and the terminal client beyond
-- its control codes. The sentences of errors, labels, serde and the debug assertions are glue and are
-- left out.
pub mod Prelude
pub mod Ids
pub mod Barcode
pub mod Deps
pub mod Time
pub mod Board
pub mod Print
pub mod Repeat
pub mod Question
pub mod Task
pub mod NextInstance
pub mod Transition
pub mod Lifecycle
pub mod Permission
pub mod Stats
pub mod Program
pub mod Schedule
pub mod Control
pub mod Receipt
pub mod Slips
pub mod Client
pub mod Template
