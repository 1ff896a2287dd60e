-- ===== src/Widget/Core/Announce.antt =====
-- What publishing on the in-process bus leaves as it was, and what it adds.
use skit_x.Common.{suc, ◌≡◌, ◌∙◌, List, [], ◌∷◌, ◌++◌, Result, ok, err, if◌then◌else◌, arith, Bytes}
use mathlib.Core.List.{append-nil, append_assoc}
use skit_x.Dbx.{Error}
use skit_x.Widget.{Widget, Store}
use skit_x.Widget.Core.{State, publish, publish_audit, created_world}
use skit_x.Widget.World.{
  Ctx, Options, Published, created, audit, audit_actor, audit_fields, audit_model_type, created_of,
}

abbrev audit_of : Ctx → Widget → Result Error Bytes → List Published
audit_of ctx w (err e) = []
audit_of ctx w (ok payload) =
    audit (record {
      model_type = audit_model_type;
      model_id = w.id;
      created_by = audit_actor ctx;
      payload = payload;
    })
    ∷ []

-- The audit event of a written widget: one with a bus and a payload, none otherwise.
abbrev pub audit_events : Options → Ctx → Widget → List Published
audit_events o ctx w = if o.bus then audit_of ctx w (o.marshal (audit_fields w)) else []

-- What Create publishes, in this order.
abbrev pub create_events : Options → Ctx → Widget → List Published
create_events o ctx w = (if o.bus then created (created_of w) ∷ [] else []) ++ audit_events o ctx w

module _ (s : Store) (o : Options) (ctx : Ctx) (w : Widget) where
  pub publish_audit_lem :
      (world : State s o)
      → publish_audit s o ctx w world
        ≡ record world { published = world.published ++ audit_events o ctx w }
  unfolding publish_audit
  publish_audit_lem world = ground (arith, append-nil world.published)

  pub created_world_lem :
      (db : s.Db) (world : State s o)
      → created_world s o ctx w db world ≡ record world {
        db = db;
        created_total = suc world.created_total;
        published = world.published ++ create_events o ctx w;
      }
  created_world_lem db world =
      publish_audit_lem (publish s o (created (created_of w)) counted)
      ∙ ground (
        arith,
        append-nil world.published,
        append_assoc world.published (created (created_of w) ∷ []) (audit_events o ctx w),
      )
    where
      counted : State s o
      counted = record world { db = db; created_total = suc world.created_total }
