-- ===== src/PatchApply/Models.antt =====
-- runtime_lab/patch_apply/models.py: the parts of a parsed diff.
use runtime_lab_core.Prelude.{ℤ, String, List}

-- `kind` is " ", "-" or "+" in what the parser returns.
pub record DiffLine : Type 0 where
  pub kind : String
  pub text : String

pub record DiffHunk : Type 0 where
  pub old_start : ℤ
  pub old_count : ℤ
  pub new_start : ℤ
  pub new_count : ℤ
  pub lines : List DiffLine

pub record FilePatch : Type 0 where
  pub target_path : String
  pub hunks : List DiffHunk
