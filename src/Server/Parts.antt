-- ===== src/Server/Parts.antt =====
-- What each option of internal/app/server/options.go adds to an App, told by the switches alone.
use mathlib.Core.List.{append_assoc, append-nil}
use skit_x.Common.{
  String, ◌≡◌, List, [], ◌∷◌, ◌++◌, map, Result, ok, ◌>>=◌, str_eq, ◌||◌, if◌then◌else◌,
}
use skit_x.Server.App.{
  App, Sdk, Failure, returned, AppOption, addr, with_server, with_grpc, with_gateway, with_workers,
  with_settings, with_consumers, dial_target,
}
use skit_x.Server.Config.{ServerOpts, broker_enabled}

-- What a process runs: where it listens, its workers and its consumers.
pub record Parts (R : Type 0) : Type 0 where
  pub listens : List String
  pub works : List R
  pub consumes : List R

abbrev pub nothing : {R : Type 0} → Parts R
nothing = record { listens = []; works = []; consumes = [] }

abbrev pub both : {R : Type 0} → Parts R → Parts R → Parts R
both p r = record {
  listens = p.listens ++ r.listens;
  works = p.works ++ r.works;
  consumes = p.consumes ++ r.consumes;
}

abbrev pub parts_of : {R : Type 0} → App R → Parts R
parts_of a = record { listens = map addr a.servers; works = a.workers; consumes = a.consumers }

abbrev pub listening_on : {R : Type 0} → String → Parts R
listening_on at = record { listens = at ∷ []; works = []; consumes = [] }

abbrev pub working : {R : Type 0} → List R → Parts R
working rs = record { listens = []; works = rs; consumes = [] }

module _ {R : Type 0} (o : ServerOpts) (sdk : Sdk R) where
  abbrev pub domain_part : Result Failure (Parts R)
  domain_part =
      if o.worker_disabled
      then ok nothing
      else returned sdk.import_workers >>= λ imports.
          ok (working (imports ++ sdk.count_poller ∷ []))

  abbrev pub published_part : Result Failure (Parts R)
  published_part = do
    _ ← returned sdk.check_events
    events ← returned sdk.event_workers
    keeper ← returned sdk.partitions
    ok (working (events ++ keeper ∷ []))

  abbrev pub event_part : Result Failure (Parts R)
  event_part = if broker_enabled o then published_part else ok nothing

  abbrev pub consumer_part : Result Failure (Parts R)
  consumer_part =
      if broker_enabled o
      then (returned sdk.consumer >>= λ c.
          ok (record { listens = []; works = []; consumes = c ∷ [] }))
      else ok nothing

  -- What one option adds, or why it fails, by the switches alone: an empty address adds no server,
  -- the gateway wants both addresses, the domain workers want the worker switch, and the event
  -- workers, the partitions and the consumer want the broker.
  abbrev pub part : AppOption → Result Failure (Parts R)
  part (with_server at sets) = ok (if str_eq at "" then nothing else listening_on at)
  part (with_grpc at) = ok (if str_eq at "" then nothing else listening_on at)
  part (with_gateway at grpc_at) =
      if str_eq at "" || str_eq grpc_at ""
      then ok nothing
      else returned (sdk.build_gateway at (dial_target grpc_at)) >>= λ _. ok (listening_on at)
  part with_workers = domain_part >>= λ d. event_part >>= λ v. ok (both d v)
  part with_settings = ok (working (sdk.settings_reread ∷ []))
  part with_consumers = consumer_part

  -- The parts of a list of options, in their order, or the first failure.
  abbrev pub parts : List AppOption → Result Failure (Parts R)
  parts [] = ok nothing
  parts (p ∷ ps) = part p >>= λ x. parts ps >>= λ rest. ok (both x rest)

module _ {R : Type 0} where
  abbrev pub viewed : Result Failure (App R) → Result Failure (Parts R)
  viewed r = r >>= λ a. ok (parts_of a)

  abbrev pub added : App R → Result Failure (Parts R) → Result Failure (Parts R)
  added a r = r >>= λ x. ok (both (parts_of a) x)

  pub both-nothing : (p : Parts R) → both p nothing ≡ p
  both-nothing p = simp append-nil

  pub both_assoc : (p r x : Parts R) → both (both p r) x ≡ both p (both r x)
  both_assoc p r x = simp append_assoc
