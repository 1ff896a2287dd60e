-- ===== src/Tests/Memory/Samples.antt =====
-- The three tables of the repository in memory, and what is assumed of their filters.
use skit_x.Common.{
  ℤ, ltb_ℤ, not, String, ◌≡◌, refl, sym, ap, Bool, true, false, Option, none, some, List, [], ◌∷◌,
  str_eq, str_eq_iff, if◌then◌else◌,
}
use skit_x.Dbx.{Arg, text, int, time, uuid, Params, get}
use skit_x.Dbx.Table.{find}
use skit_x.Listing.Pages.{HoldsKeyset}
use skit_x.Tests.Formats.{formats}
use skit_x.Tests.Memory.Laws.{serves, insert_outbox, rows_outbox, committed_ok, committed_err}
use skit_x.Tests.Memory.Rows.{Sample, tasks, ilike, ilike_arg, past_args}
use skit_x.Product.Db.{DbProduct, products}
use skit_x.Product.Filter as ProductFilter
use skit_x.User.Db.{DbUser, users}
use skit_x.User.Filter as UserFilter
use skit_x.Widget.Db.{DbWidget, widgets}
use skit_x.Widget.Db.Queue.{HasTasks}
use skit_x.Widget.Db.Filter as WidgetFilter
use skit_x.Widget.Stack.{IsLive}

-- The predicates of the queries differ.
str_eq_refl : (s : String) → str_eq s s ≡ true
str_eq_refl s = (str_eq_iff s s).1 refl

abbrev widget_from : Params → Option DbWidget
widget_from ((_, uuid i) ∷ (_, text n) ∷ (_, text d) ∷ (_, time c) ∷ (_, time u) ∷ []) =
    some (record { id = i; name = n; description = d; created_at = c; updated_at = u })
widget_from _ = none

-- the rows of a multi-row INSERT
unfoldable pub widgets_from : List Arg → List DbWidget
widgets_from (uuid i ∷ text n ∷ text d ∷ time c ∷ time u ∷ rest) =
    record { id = i; name = n; description = d; created_at = c; updated_at = u } ∷ widgets_from rest
widgets_from _ = []

abbrev user_from : Params → Option DbUser
user_from ((_, uuid i) ∷ (_, text e) ∷ (_, text n) ∷ (_, time c) ∷ (_, time u) ∷ []) =
    some (record { id = i; email = e; name = n; created_at = c; updated_at = u })
user_from _ = none

abbrev product_from : Params → Option DbProduct
product_from ((_, uuid i) ∷ (_, text n) ∷ (_, int p) ∷ (_, time c) ∷ (_, time u) ∷ []) =
    some (record { id = i; name = n; price = p; created_at = c; updated_at = u })
product_from _ = none

unfoldable pub widget_holds : String → Params → DbWidget → Bool
widget_holds c p r =
    if str_eq c "name ILIKE :name"
    then ilike_arg r.name (get "name" p)
    else if str_eq c "description ILIKE :description"
    then ilike_arg r.description (get "description" p)
    else past_args widgets r (get "after_ts" p) (get "after_id" p)

unfoldable pub user_holds : String → Params → DbUser → Bool
user_holds c p r =
    if str_eq c "name ILIKE :name"
    then ilike_arg r.name (get "name" p)
    else if str_eq c "email ILIKE :email"
    then ilike_arg r.email (get "email" p)
    else past_args users r (get "after_ts" p) (get "after_id" p)

abbrev at_least_arg : ℤ → Option Arg → Bool
at_least_arg price (some (int n)) = not (ltb_ℤ price n)
at_least_arg price _ = false

abbrev at_most_arg : ℤ → Option Arg → Bool
at_most_arg price (some (int n)) = not (ltb_ℤ n price)
at_most_arg price _ = false

unfoldable pub product_holds : String → Params → DbProduct → Bool
product_holds c p r =
    if str_eq c "name ILIKE :name"
    then ilike_arg r.name (get "name" p)
    else if str_eq c "price >= :min_price"
    then at_least_arg r.price (get "min_price" p)
    else if str_eq c "price <= :max_price"
    then at_most_arg r.price (get "max_price" p)
    else past_args products r (get "after_ts" p) (get "after_id" p)

pub widget_statements : str_eq widgets.delete_sql widgets.update_sql ≡ false
unfolding str_eq
widget_statements = refl

pub user_statements : str_eq users.delete_sql users.update_sql ≡ false
unfolding str_eq
user_statements = refl

pub product_statements : str_eq products.delete_sql products.update_sql ≡ false
unfolding str_eq
product_statements = refl

abbrev pub widget_sample : Sample DbWidget
widget_sample = record {
  table = widgets;
  row_from = widget_from;
  holds = widget_holds;
  rows_from = widgets_from;
  reads = λ r. refl;
  stored_id = λ r. refl;
  assign_id = λ r old. refl;
  differ = widget_statements;
}

abbrev pub user_sample : Sample DbUser
user_sample = record {
  table = users;
  row_from = user_from;
  holds = user_holds;
  rows_from = λ values. [];
  reads = λ r. refl;
  stored_id = λ r. refl;
  assign_id = λ r old. refl;
  differ = user_statements;
}

abbrev pub product_sample : Sample DbProduct
product_sample = record {
  table = products;
  row_from = product_from;
  holds = product_holds;
  rows_from = λ values. [];
  reads = λ r. refl;
  stored_id = λ r. refl;
  assign_id = λ r old. refl;
  differ = product_statements;
}

-- The queue beside the rows.
pub queued : HasTasks (serves widget_sample) (tasks widget_sample)
unfolding serves
queued = record {
  outbox = λ db. db.outbox;
  schedule_ok =
      λ c db db' h. (ap (λ p. p.1.outbox) (sym h), λ i. ap (λ p. find widgets i p.1.rows) (sym h));
  insert_outbox = λ p db db' h. insert_outbox widget_sample _ db db' h;
  update_outbox = λ p n db db' h. rows_outbox widget_sample _ _ _ n db db' h;
  delete_outbox = λ p n db db' h. rows_outbox widget_sample _ _ _ n db db' h;
  within_ok = λ f db db' h. committed_ok widget_sample db db' (f db) h;
  within_err = λ f e db db' h. committed_err widget_sample db db' e (f db) h;
}

pub live : IsLive (serves widget_sample) (tasks widget_sample)
unfolding serves
live = record {
  schedules = λ c db up. (_, refl);
  commits = λ f db db' up h. rw h;
  undoes = λ f e db db' h. (e, rw h, λ c. refl);
}

unfoldable pub widget_filters : WidgetFilter.HoldsFilter (serves widget_sample)
unfolding serves widget_holds str_eq
widget_filters = record { ilike = ilike; name = λ p r s h. rw h; description = λ p r s h. rw h }

unfoldable pub user_filters : UserFilter.HoldsFilter (serves user_sample)
unfolding serves user_holds str_eq
user_filters = record { ilike = ilike; name = λ p r s h. rw h; email = λ p r s h. rw h }

unfoldable pub product_filters : ProductFilter.HoldsFilter (serves product_sample)
unfolding serves product_holds str_eq
product_filters = record {
  ilike = ilike;
  name = λ p r s h. rw h;
  at_least = λ p r n h. rw h;
  at_most = λ p r n h. rw h;
}

pub widget_keyset : HoldsKeyset (serves widget_sample) formats
unfolding serves widget_holds formats str_eq
widget_keyset = record { keyset = λ p ts i r h k. rw (h, k) }

pub user_keyset : HoldsKeyset (serves user_sample) formats
unfolding serves user_holds formats str_eq
user_keyset = record { keyset = λ p ts i r h k. rw (h, k) }

pub product_keyset : HoldsKeyset (serves product_sample) formats
unfolding serves product_holds formats str_eq
product_keyset = record { keyset = λ p ts i r h k. rw (h, k) }
