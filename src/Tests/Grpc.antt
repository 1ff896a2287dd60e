-- ===== src/Tests/Grpc.antt =====
-- The gRPC service over the widget store in memory.
use skit_x.Common.{
  ℕ, zero, suc, ap, String, ◌≡◌, refl, false, Option, none, some, [], ok, err, str_eq,
}
use skit_x.Dbx.Table.{find, micros, is_taken}
use skit_x.Grpc.{
  Edge, CreateWidgetRequest, UpdateWidgetRequest, ProtoWidget, create_widget, get_widget,
  update_widget, delete_widget, invalid_id,
}
use skit_x.Grpc.Failures.{grpc_failures_change_nothing}
use skit_x.Grpc.RoundTrip.{IsEdge, get-create_widget}
use skit_x.Tests.Formats.{formats, tokens}
use skit_x.Tests.Memory.{memory, tasks, serves, widget_sample, queued}
use skit_x.Widget.{Store}
use skit_x.Widget.Core
use skit_x.Widget.Core.{State, insert, publish_audit, new_widget}
use skit_x.Widget.World.{Ctx, Options}
use skit_x.Widget.Db
use skit_x.Widget.Db.{DbWidget, store}
use skit_x.Widget.Db.Contract.{store_contract}
use skit_x.Widget.Settings.{default_settings, writable}

-- The text of an id has one letter more than it says; the empty text is no id.
abbrev letters : ℕ → String
letters zero = ""
letters (suc n) = String.◌∷◌ "i" (letters n)

abbrev count_letters : String → ℕ
count_letters String.[] = 0
count_letters (String.◌∷◌ c s) = suc (count_letters s)

abbrev parse : String → Option ℕ
parse String.[] = none
parse (String.◌∷◌ c s) = some (count_letters s)

abbrev edge : Edge
edge = record {
  parse_uuid = parse;
  uuid_text = λ n. String.◌∷◌ "i" (letters n);
  check_name = λ s. ok tt;
  new_page = λ page size. record { offset = 0; rows_per_page = 10 };
}

count-letters : (n : ℕ) → count_letters (letters n) ≡ n
count-letters zero = refl
count-letters (suc n) = ap suc (count-letters n)

edge-IsEdge : IsEdge edge
edge-IsEdge = record { parse-uuid_text = λ n. ap some (count-letters n) }

abbrev shop : Store
shop = store (memory widget_sample) formats tokens (some (tasks widget_sample))

abbrev options : Options
options = record { bus = false; marshal = λ fields. ok [] }

abbrev empty : State shop options
empty = record {
  db = record { rows = []; outbox = [] };
  created_total = 0;
  published = [];
  settings = default_settings;
}

abbrev ctx : Ctx
ctx = record { now = 4321; new_id = 2; subject = none }

abbrev lamp : CreateWidgetRequest
lamp = record { name = "lamp"; description = "new" }

abbrev lamp_proto : ProtoWidget
lamp_proto = record {
  id = "iii";
  name = "lamp";
  description = "new";
  created_at = 4321;
  updated_at = 4321;
}

abbrev after : State shop options
after = (create_widget edge shop options ctx lamp empty).1

create_runs : create_widget edge shop options ctx lamp empty ≡ (ok lamp_proto, after)
unfolding create_widget Core.create insert Db.create find is_taken str_eq publish_audit writable
create_runs = refl

get-create_widget_example :
    (lamp_proto ≡ lamp_proto)
    × (get_widget edge shop options (record { id = "iii" }) after
        ≡ ok (record lamp_proto { created_at = 4000; updated_at = 4000 }))
unfolding serves micros
get-create_widget_example =
    get-create_widget (serves widget_sample) (tasks widget_sample) queued formats tokens options
      edge edge-IsEdge ctx lamp empty after lamp_proto create_runs refl

abbrev no_id : UpdateWidgetRequest
no_id = record { id = ""; name = some "x"; description = none }

grpc_failures_change_nothing_example :
    (create_widget edge shop options ctx lamp empty ≡ (err (invalid_id ""), empty) → empty ≡ empty)
    × (update_widget edge shop options ctx no_id empty ≡ (err (invalid_id ""), empty)
        → empty ≡ empty)
    × (delete_widget edge shop options (record { id = "" }) empty ≡ (err (invalid_id ""), empty)
        → empty ≡ empty)
grpc_failures_change_nothing_example =
    grpc_failures_change_nothing edge shop options
      (store_contract (serves widget_sample) (tasks widget_sample) queued formats tokens) ctx lamp
      no_id (record { id = "" }) empty empty (invalid_id "")
