-- ===== src/Print.antt =====
-- crates/taskologic-core/src/print.rs: the rules a task carries for its own printing. Rendering and
-- the printers themselves are not part of this.
use taskologic.Prelude.{Bool, true, false, List}
use taskologic.Ids.{Uid}
use taskologic.Time.{Offset}

pub data Symbology : Type 0 where
  code39 code128 qr data_matrix : Symbology

pub data PrintWhen : Type 0 where
  on_create on_start : PrintWhen
  before_due : Offset → PrintWhen

pub data SlipKind : Type 0 where
  task_slip reminder_slip sheet : SlipKind

pub data Recipients : Type 0 where
  assignees creator : Recipients
  users : List Uid → Recipients

pub record PrintRule : Type 0 where
  pub when : PrintWhen
  pub slip : SlipKind
  pub to : Recipients

abbrev pub is_sheet : SlipKind → Bool
is_sheet sheet = true
is_sheet _ = false

abbrev pub is_on_create : PrintWhen → Bool
is_on_create on_create = true
is_on_create _ = false
