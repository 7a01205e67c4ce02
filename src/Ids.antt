-- ===== src/Ids.antt =====
-- crates/taskologic-core/src/ids.rs: identifiers and base36.
-- Database row ids (`BoardId`, `ColumnId`, `TaskId`, ...) are numbers that are only ever compared;
-- they are natural numbers here, as the database hands them out, and so are uids.
pub mod ShortId
use taskologic.Prelude.{ℕ, ◌+◌, ◌-◌, Option, none, some, ◌&&◌, ◌≡◌}
use taskologic.Prelude.Tests.{leb, if◌then◌else◌}
use taskologic.Prelude.Lists.{get_elem?}
use taskologic.Prelude.Text.{Text, text}

abbrev pub Uid : Type 0
Uid = ℕ

abbrev pub BoardId : Type 0
BoardId = ℕ

abbrev pub ColumnId : Type 0
ColumnId = ℕ

abbrev pub TaskId : Type 0
TaskId = ℕ

abbrev pub TemplateId : Type 0
TemplateId = ℕ

abbrev pub ProgramId : Type 0
ProgramId = ℕ

abbrev pub RunId : Type 0
RunId = ℕ

abbrev pub base36_alphabet : Text
base36_alphabet = text "0123456789ABCDEFGHIJKLMNOPQRSTUVWXYZ"

-- Value of a base36 digit. Lowercase is accepted.
unfoldable pub base36_value : ℕ → Option ℕ
base36_value c =
    if leb b'0' c && leb c b'9'
    then some (c - b'0')
    else if leb b'A' c && leb c b'Z'
    then some (c - b'A' + 10)
    else if leb b'a' c && leb c b'z'
    then some (c - b'a' + 10)
    else none

-- Uppercase base36 digit for a value below 36.
unfoldable pub base36_char : ℕ → Option ℕ
base36_char v = get_elem? base36_alphabet v
