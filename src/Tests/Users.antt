-- ===== src/Tests/Users.antt =====
-- The user core over its table in memory.
use skit_x.Common.{refl, true, none, some, [], ◌∷◌, str_eq}
use skit_x.Dbx.Table.{find, is_taken}
use skit_x.User.{NewUser, UpdateUser, QueryFilter}
use skit_x.User.Core
use skit_x.User.Db.{DbUser}
use skit_x.User.Stack
use skit_x.User.Stack.{user_store, user_writes_outcome}
use skit_x.Tests.Memory.{Db as Table, serves, user_sample}
use skit_x.Tests.Formats.{formats, tokens}

abbrev ada : DbUser
ada = record { id = 2; email = "ada@x"; name = "ada"; created_at = 2; updated_at = 2 }

abbrev bob : DbUser
bob = record { id = 1; email = "bob@x"; name = "bob"; created_at = 1; updated_at = 1 }

abbrev people : Table DbUser
people = record { rows = ada ∷ bob ∷ []; outbox = [] }

abbrev user_ctx : Core.Ctx
user_ctx = record { now = 9; new_id = 3 }

abbrev cyd : NewUser
cyd = record { email = "cyd@x"; name = "cyd" }

abbrev as_bob : UpdateUser
as_bob = record { email = some "bob@x"; name = none }

user_writes_outcome_example :
    Stack.Created
      (serves user_sample)
      formats
      tokens
      user_ctx
      cyd
      people
      true
      (Core.create (user_store (serves user_sample) formats tokens) user_ctx cyd people)
    × Stack.Updated
        (serves user_sample)
        formats
        tokens
        user_ctx
        2
        as_bob
        people
        (some ada)
        (Core.update (user_store (serves user_sample) formats tokens) user_ctx 2 as_bob people)
    × Stack.Deleted
        (serves user_sample)
        formats
        tokens
        2
        people
        (some ada)
        (Core.delete (user_store (serves user_sample) formats tokens) 2 people)
unfolding serves find is_taken str_eq
user_writes_outcome_example =
    user_writes_outcome (serves user_sample) formats tokens user_ctx cyd 2 as_bob people refl

abbrev every_user : QueryFilter
every_user = record { name = none; email = none }
