-- ===== src/Import/Workers.antt =====
-- core/widgetimport/widgetimport.go: Workers, over the queue library.
use skit_x.Common.{zero, String, ℤ, pos, List, Result, ok, err}
use skit_x.Dbx.{Error, wrap}
use skit_x.Import.{import_queue}

-- The settings of the workers; a duration is its nanoseconds.
pub record Config : Type 0 where
  pub interval : ℤ
  pub batch_size : ℤ

-- queue.Config
pub record QueueConfig : Type 0 where
  pub queue : String
  pub batch : ℤ
  pub poll : ℤ

-- Mux.Register of a new Mux, by the kind, and queue.Workers of that Mux.
pub record QueueWorkers (R : Type 0) : Type 0 where
  pub register : String → Result Error (Unit {0})
  pub build : QueueConfig → Result Error (List R)

-- cmp.Or
abbrev or_default : ℤ → ℤ → ℤ
or_default (pos zero) d = d
or_default n d = n

abbrev registered :
    {R : Type 0} → QueueWorkers R → Config → Result Error (Unit {0}) → Result Error (List R)
registered q cfg (err e) = err (wrap "widgetimport workers" e)
registered q cfg (ok _) = q.build (record {
  queue = import_queue;
  batch = or_default cfg.batch_size (pos 50);
  poll = cfg.interval;
})

-- Importer.Workers
abbrev pub workers : {R : Type 0} → QueueWorkers R → Config → Result Error (List R)
workers q cfg = registered q cfg (q.register import_queue)
