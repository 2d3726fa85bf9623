-- ===== src/Examples/Bots.antt =====
-- A bot session in a store in memory.
use beta.Base.{◌≡◌, refl, sym, inr, String, false, [], ◌∷◌, ◌++◌, length, ok, str_eq, if◌then◌else◌}
use beta.Base.Int.{pos}
use beta.Base.Io.{Io, Reads, Writes, Updates, ok-injective, ◌>>=◌, ◌>>◌, pure, attempt, finally}
use beta.Bot.{
  BotRedis, BotError, BotTransitionConfig, Net, Marker, Inputs, head?, tail, change_place, step,
  fire_all, fire, check_inputs, count_markers, pop_inputs, pop_markers, pop_marker, dispatch,
  push_marker,
}
use beta.Bot.Markers.{IsUp}
use beta.Bot.Petri.{IsVisit, Fires, step-Fires}

abbrev asking : {A : Type 0} → (Net → Net) → (Net → A) → Io Net BotError A
asking change answer s = (ok (answer s), change s)

asking-Reads : {A : Type 0} (f : Net → A) → Reads (λ s. s) (asking (λ s. s) f) f
asking-Reads f s = (refl, λ a e. sym (ok-injective e))

asking-Writes :
    {A : Type 0} (f : Net → Net) (answer : Net → A) → Writes (λ s. s) (asking f answer) f
asking-Writes f answer s = (λ a e. refl, inr refl)

asking-Updates :
    {A : Type 0} (f : Net → Net) (answer : Net → A) → Updates (λ s. s) (asking f answer) f answer
asking-Updates f answer s = (λ a e. (sym (ok-injective e), refl), inr refl)

abbrev bot_memory : BotRedis
bot_memory = record {
  Db = Net;
  view = λ s. s;
  acquire = asking (λ s. s) (λ s. tt);
  release = λ s. s;
  llen = λ l. asking (λ s. s) (λ s. length (s.places l));
  lpop = λ l. asking (change_place l tail) (λ s. head? (s.places l));
  rpush = λ l m. asking (change_place l (λ ms. ms ++ m ∷ [])) (λ s. tt);
  send = λ x. asking (λ s. record s { sent = s.sent ++ x ∷ [] }) (λ s. "task");
  push_event = λ e. asking (λ s. s) (λ s. tt);
  acquire-Keeps = λ s. refl;
  release-view = λ s. refl;
  llen-Reads = λ l. asking-Reads (λ s. length (s.places l));
  lpop-Updates = λ l. asking-Updates (change_place l tail) (λ s. head? (s.places l));
  rpush-Writes = λ l m. asking-Writes (change_place l (λ ms. ms ++ m ∷ [])) (λ s. tt);
  send-Writes = λ x. asking-Writes (λ s. record s { sent = s.sent ++ x ∷ [] }) (λ s. "task");
  push_event-Keeps = λ e s. refl;
}

bot_memory-IsUp : IsUp bot_memory
bot_memory-IsUp = record {
  llen-answers = λ l s. (length (s.places l), refl);
  lpop-answers = λ l s. (head? (s.places l), refl);
}

abbrev same_order : Inputs → Inputs
same_order m = m

same_order-IsVisit : IsVisit same_order
same_order-IsVisit = record { entries = λ m l. refl; once = λ m h. h }

abbrev question : String → Marker
question id = record { location_name = "question"; fields = []; source_task_id = id }

abbrev three_questions : Net
three_questions = record {
  places = λ l. if str_eq l "question" then question "a" ∷ question "b" ∷ question "c" ∷ [] else [];
  sent = [];
}

-- A transition that asks for two questions.
abbrev answers : BotTransitionConfig
answers = record { name = "answers"; inputs = ("question", pos 2) ∷ []; confirm = false }

abbrev after_step : Net
after_step = (step bot_memory same_order (answers ∷ answers ∷ []) three_questions).1

step-Fires_example : Fires bot_memory same_order (answers ∷ answers ∷ []) three_questions after_step
step-Fires_example =
    step-Fires bot_memory bot_memory-IsUp same_order same_order-IsVisit (answers ∷ answers ∷ [])
      three_questions refl ((refl, tt), ((refl, tt), tt))

-- The first firing leaves one question, so the second does not take place.
fires_once :
    after_step.sent
    ≡ record { transition = "answers"; markers = question "a" ∷ question "b" ∷ []; waits = false }
      ∷ []
unfolding step fire_all fire check_inputs count_markers pop_inputs pop_markers pop_marker dispatch
    ◌>>=◌ ◌>>◌ pure attempt finally
fires_once = refl

pushes_back :
    (push_marker bot_memory "question" (question "d") after_step).1.places "question"
    ≡ question "c" ∷ question "d" ∷ []
unfolding push_marker step fire_all fire check_inputs count_markers pop_inputs pop_markers
    pop_marker dispatch ◌>>=◌ ◌>>◌ pure attempt finally
pushes_back = refl
