-- ===== src/Widget/World.antt =====
-- core/widget/widget.go: what a call of Core reads and changes beside the store, and the errors
-- that it answers.
use skit_x.Common.{
  ℕ, String, Bool, Option, none, some, List, [], ◌∷◌, Result, ok, err, if◌then◌else◌, Bytes,
}
use skit_x.Dbx.{Error, is, err_not_found, err_already_exists, text, time, uuid, Params}
use skit_x.Errs.{AppError, newf, wrapped, not_found, already_exists, internal}
use skit_x.Widget.{Widget, Created}
use skit_x.Widget.Settings.{Settings}

-- auditbus.Event
pub record AuditEvent : Type 0 where
  pub model_type : String
  pub model_id : ℕ
  pub created_by : String
  pub payload : Bytes

-- What Core publishes on the in-process bus.
pub data Published : Type 0 where
  created : Created → Published
  audit : AuditEvent → Published

-- What a call takes from outside: time.Now, uuid.New and the subject of the principal.
pub record Ctx : Type 0 where
  pub now : ℕ
  pub new_id : ℕ
  pub subject : Option String

pub record World (Db : Type 0) : Type 0 where
  pub db : Db
  pub created_total : ℕ
  pub published : List Published
  pub settings : Settings

-- WithEventBus: whether a bus is set. `marshal` is json.Marshal of the audit fields.
pub record Options : Type 0 where
  pub bus : Bool
  pub marshal : Params → Result Error Bytes

abbrev pub audit_model_type : String
audit_model_type = "widget"

-- auditActor
abbrev pub audit_actor : Ctx → String
audit_actor ctx = elim ctx.subject [ none ↦ "" | some s ↦ s ]

abbrev pub audit_fields : Widget → Params
audit_fields w =
    ("id", uuid w.id)
    ∷ ("name", text w.name)
    ∷ ("description", text w.description)
    ∷ ("created_at", time w.created_at)
    ∷ ("updated_at", time w.updated_at)
    ∷ []

-- Core.notFound
abbrev pub not_found_error : ℕ → AppError
not_found_error i = record (newf not_found "widget %s not found" (uuid i ∷ [])) {
  message_id = "widget.not_found";
  args = ("id", uuid i) ∷ [];
}

abbrev pub already_exists_error : String → AppError
already_exists_error name =
    record (newf already_exists "widget %q already exists" (text name ∷ [])) {
      message_id = "widget.already_exists";
      args = ("name", text name) ∷ [];
    }

abbrev pub created_of : Widget → Created
created_of w = record {
  id = w.id;
  name = w.name;
  description = w.description;
  created_at = w.created_at;
}

-- The mapping of a store error that Update, Delete and QueryByID make.
abbrev pub not_found_or_internal : ℕ → Error → AppError
not_found_or_internal i e = if is e err_not_found then not_found_error i else wrapped internal e

-- The mapping of the error of insert.
abbrev pub create_error : String → Error → AppError
create_error name e =
    if is e err_already_exists then already_exists_error name else wrapped internal e

-- Any error of the listings is Internal.
abbrev pub internally {ℓ} : {A : Type ℓ} → Result Error A → Result AppError A
internally (ok a) = ok a
internally (err e) = err (wrapped internal e)
