-- ===== src/Scheduler/Select.antt =====
-- `selectWorker` of pkg/scheduler/scheduler.go: filter, score, sort, take the first.
pub mod Best
use beta.Base.{
  ℕ, Bool, true, false, Option, none, some, List, [], ◌∷◌, map, Memᴰ, All, Permᴰ, Result, ok, err,
  if◌then◌else◌,
}
use beta.Base.Int.{ℤ, pos, ◌+ℤ◌, ◌≤ℤ◌}
use beta.Base.Machine.{i32}
use beta.Types.{WorkerStatus, available, pending, Worker, ContainerRequest}
use beta.Scheduler.Filters.{filter_workers}

pub record ScoredWorker : Type 0 where
  pub worker : Worker
  pub score : ℤ  -- int32

-- From the first entry on no later one has a higher score.
abbrev pub Descending : List ScoredWorker → Type 0
Descending [] = Unit {0}
Descending (s ∷ l) = All (λ t. t.score ≤ℤ s.score) l × Descending l

-- What `sort.Slice` does with a "higher score first" order. It is not stable, so the order of equal
-- scores is left open.
pub record SortSlice : Type 0 where
  pub sort : List ScoredWorker → List ScoredWorker
  pub sort-perm : (l : List ScoredWorker) → Permᴰ l (sort l)
  pub sort-Descending : (l : List ScoredWorker) → Descending (sort l)

pub data SelectError : Type 0 where
  repository_failed : SelectError
  no_suitable_worker : SelectError
  index_out_of_range : SelectError

abbrev pub score_available_worker : ℤ
score_available_worker = pos 10

abbrev pub is_available : WorkerStatus → Bool
is_available available = true
is_available _ = false

unfoldable pub score_worker : Worker → ℤ
score_worker w =
    let base = if is_available w.status then i32 (pos 0 +ℤ score_available_worker) else pos 0 in
    i32 (base +ℤ w.priority)

abbrev pub scored : Worker → ScoredWorker
scored w = record { worker = w; score = score_worker w }

-- `scoredWorkers[0].worker`
abbrev pub first_worker : List ScoredWorker → Result SelectError Worker
first_worker [] = err index_out_of_range
first_worker (s ∷ l) = ok s.worker

abbrev pick : SortSlice → List Worker → Result SelectError Worker
pick s [] = err no_suitable_worker
pick s (w ∷ ws) = first_worker (s.sort (map scored (w ∷ ws)))

-- `workers` is what `GetAllWorkers` returned.
unfoldable pub select_worker :
    SortSlice → Result (Unit {0}) (List Worker) → ContainerRequest → Result SelectError Worker
select_worker s (err e) r = err repository_failed
select_worker s (ok workers) r = pick s (filter_workers workers r)
