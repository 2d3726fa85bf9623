-- ===== src/Scheduler/Turn/Accounted.antt =====
-- What one turn of the processing loop does with the request that it pops.
use beta.Base.{◌≡◌, ◌⊎◌, ℕ, ◌≤◌, [], ◌∷◌, All, err}
use beta.Types.{Worker, ContainerRequest}
use beta.Repository.Worker.Index.{get_all_workers}
use beta.Scheduler.Dispatch.{Services, State}
use beta.Scheduler.Turn.{Outcome, idle, pop_failed, Settings}
use beta.Scheduler.Turn.Handled.{workers_of, backlog_of, Settled}

module _ (S : Services) where
  abbrev pub score : ContainerRequest → ℕ
  score r = S.backlog.float64 r.timestamp

  -- The request was taken off the backlog, where none has a lower score.
  pub record Popped (st : State S) (r : ContainerRequest) (st' : State S) : Type 0 where
    pub first : backlog_of S st ≡ r ∷ backlog_of S st'
    pub oldest : All (λ (q : ContainerRequest). score r ≤ score q) (backlog_of S st')

  module _ (settings : Settings) (elapsed : ℕ) where
    -- The first part of the turn: what it took off the backlog.
    abbrev pub Accounts : State S → Outcome × State S → Type 0
    Accounts st (idle, st') =
        (workers_of S st' ≡ workers_of S st)
        × (backlog_of S st' ≡ backlog_of S st)
        × (((S.backlog.zcard st.backlog_db).0 ≡ err tt) ⊎ (backlog_of S st ≡ []))
    Accounts st (pop_failed, st') = workers_of S st' ≡ workers_of S st
    Accounts st (o, st') =
        (r : ContainerRequest) × Popped st r st'
        × Settled S settings elapsed st.container_db r (get_all_workers S.workers st.worker_db).0
            (workers_of S st) o (workers_of S st')
