-- ===== src/Import/Log.antt =====
-- The tasks that Schedule leaves in the queue.
use skit_x.Common.{
  ℕ, suc, ◌≤◌, String, ◌≡◌, refl, sym, ap, ◌∙◌, Bool, true, false, List, [], ◌∷◌, ◌++◌, Result, ok,
  err, length, All, arith, inl, inr, Bool-cases,
}
use mathlib.Core.Path.{subst}
use skit_x.Dbx.{Error}
use skit_x.Errs.{AppError}
use skit_x.Widget.{Widget, NewWidget}
use skit_x.Widget.Settings.{Settings, writable, check, max_import}
use skit_x.Import.{
  Queue, Codec, Ctx, Task, ScheduleError, over_limit, schedule, schedule_writable, enqueue, asked,
}
use skit_x.Import.Scheduled.{IsCodec, imported, schedule_hands_over}

module _ {P : Type 0} (q : Queue P) (codec : Codec P) where
  -- What is assumed of the queue: it holds the tasks that it was given, leaves out one whose key it
  -- has (`false`), and an error adds none.
  pub record HoldsTasks : Type 0 where
    pub tasks : q.State → List (Task P)
    pub schedule_new :
        (t : Task P) (st st' : q.State)
        → q.schedule t st ≡ (ok true, st')
        → tasks st' ≡ tasks st ++ t ∷ []
    pub schedule_known :
        (t : Task P) (st st' : q.State) → q.schedule t st ≡ (ok false, st') → tasks st' ≡ tasks st
    pub schedule_failed :
        (t : Task P) (e : Error) (st st' : q.State)
        → q.schedule t st ≡ (err e, st')
        → tasks st' ≡ tasks st

  -- A task whose payload reads back as no more than max_import widgets.
  abbrev pub IsBounded : Task P → Type 0
  IsBounded t = (ws : List Widget) × (codec.unmarshal t.payload ≡ ok ws) × (length ws ≤ max_import)

  length-imported :
      (ctx : Ctx) (n : ℕ) (news : List NewWidget) → length (imported ctx n news) ≡ length news
  unfolding imported
  length-imported ctx n [] = refl
  length-imported ctx n (w ∷ ws) = ap suc (length-imported ctx (suc n) ws)

  All-snoc :
      {A : Type 0} (Q : A → Type 0) (xs : List A) (x : A) → All Q xs → Q x → All Q (xs ++ x ∷ [])
  All-snoc Q [] x h k = (k, tt)
  All-snoc Q (y ∷ ys) x (h, hs) k = (h, All-snoc Q ys x hs k)

  module _ (lawful : IsCodec codec) (held : HoldsTasks) where
    open held use {tasks}

    abbrev pub AllBounded : q.State → Type 0
    AllBounded st = All IsBounded (tasks st)

    asked-bounded :
        (ctx : Ctx) (set : Settings) (name : String) (news : List NewWidget) (st st' : q.State)
        (b : Bool)
        → check set ≡ ok tt
        → schedule q codec ctx set name news st ≡ (ok b, st')
        → AllBounded st
        → AllBounded st'
    asked-bounded ctx set name news st st' b saved h all =
        let (t, (_, _, _, read), sent, small) =
          schedule_hands_over q codec lawful ctx set name news st st' b saved h in
        by_answer t (imported ctx 0 news, read, omega (arith, length-imported ctx 0 news, small)) b
          sent
      where
        by_answer :
            (t : Task P) → IsBounded t → (c : Bool) → q.schedule t st ≡ (ok c, st') → AllBounded st'
        by_answer t bounded true sent =
            subst (All IsBounded) (sym (held.schedule_new t st st' sent))
              (All-snoc IsBounded (tasks st) t all bounded)
        by_answer t bounded false sent =
            subst (All IsBounded) (sym (held.schedule_known t st st' sent)) all

    asked-err :
        (t : Task P) (r : Result Error Bool × q.State) (st st' : q.State) (x : ScheduleError)
        → q.schedule t st ≡ r
        → asked q codec r ≡ (err x, st')
        → tasks st' ≡ tasks st
    asked-err t (ok b, s) st st' x h g = cc (ap (λ p. p.0) g)
    asked-err t (err e, s) st st' x h g =
        held.schedule_failed t e st st' (h ∙ ap (λ (v : q.State). (err e, v)) (ap (λ p. p.1) g))

    enqueue-err :
        (name : String) (m : Result Error P) (st st' : q.State) (x : ScheduleError)
        → enqueue q codec name m st ≡ (err x, st')
        → tasks st' ≡ tasks st
    enqueue-err name (err e) st st' x h = ap tasks (sym (ap (λ p. p.1) h))
    enqueue-err name (ok payload) st st' x h = asked-err _ (q.schedule _ st) st st' x refl h

    schedule-err :
        (ctx : Ctx) (set : Settings) (name : String) (news : List NewWidget)
        (g : Result AppError (Unit {0})) (st st' : q.State) (x : ScheduleError)
        → schedule_writable q codec ctx set name news g st ≡ (err x, st')
        → tasks st' ≡ tasks st
    unfolding schedule
    schedule-err ctx set name news (err e) st st' x h = ap tasks (sym (ap (λ p. p.1) h))
    schedule-err ctx set name news (ok _) st st' x h = elim (Bool-cases (over_limit set news)) [
      | inl over ↦ ap tasks (sym (ap (λ p. p.1) (rw over at h)))
      | inr fits ↦ enqueue-err name _ st st' x (rw fits at h)
    ]

    -- Under settings that pass their check, a Schedule leaves no task of more than max_import
    -- widgets in a queue that had none, whatever it answers.
    pub schedule-AllBounded :
        (ctx : Ctx) (set : Settings) (name : String) (news : List NewWidget) (st : q.State)
        → check set ≡ ok tt
        → AllBounded st
        → AllBounded (schedule q codec ctx set name news st).1
    unfolding schedule
    schedule-AllBounded ctx set name news st saved all =
        by_result (schedule q codec ctx set name news st) refl
      where
        by_result :
            (r : Result ScheduleError Bool × q.State)
            → schedule q codec ctx set name news st ≡ r
            → AllBounded r.1
        by_result (ok b, st') h = asked-bounded ctx set name news st st' b saved h all
        by_result (err x, st') h =
            subst (All IsBounded) (sym (schedule-err ctx set name news (writable set) st st' x h))
              all
