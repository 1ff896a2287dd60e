-- ===== src/Server/Compact.antt =====
-- POST /auditlog/compact: compactHandler of internal/app/server/routes.go, over the audit log core
-- of the SDK.
use skit_x.Common.{ℕ, ℤ, Result, ok, err}
use skit_x.Dbx.{Error}
use skit_x.Errs.{AppError, wrapped, internal}

-- Audit of internal/app/config/opts.go
pub record AuditOpts : Type 0 where
  pub auto_compact_every : ℤ
  pub factor : ℤ
  pub keep_recent : ℤ
  pub max_versions : ℤ
  pub compact_threshold : ℤ
  pub compact_limit : ℤ

-- auditlog.CompactOptions and CompactBatchOptions
pub record CompactOptions : Type 0 where
  pub factor : ℤ
  pub keep_recent : ℤ
  pub max_versions : ℤ

pub record CompactBatchOptions : Type 0 where
  pub threshold : ℤ
  pub limit : ℤ
  pub compact : CompactOptions

-- The document of the answer: how many models were compacted, and versions deleted.
pub record Compacted : Type 0 where
  pub models : ℕ
  pub deleted : ℕ

abbrev pub batch_options : AuditOpts → CompactBatchOptions
batch_options a = record {
  threshold = a.compact_threshold;
  limit = a.compact_limit;
  compact = record {
    factor = a.factor;
    keep_recent = a.keep_recent;
    max_versions = a.max_versions;
  };
}

-- `compact_batch` is CompactBatch of the core, on its log.
module _ {Log : Type 0}
    (compact_batch : CompactBatchOptions → Log → Result Error Compacted × Log) where
  abbrev answered : Result Error Compacted × Log → Result AppError Compacted × Log
  answered (ok c, log) = (ok c, log)
  answered (err e, log) = (err (wrapped internal e), log)

  -- compactHandler
  unfoldable pub compact_handler : AuditOpts → Log → Result AppError Compacted × Log
  compact_handler a log = answered (compact_batch (batch_options a) log)
