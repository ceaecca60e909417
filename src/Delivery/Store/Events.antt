-- ===== src/Delivery/Store/Events.antt =====
-- The events of an execution in adapters/memory.py: their numbers, and reading them back.
use mvp_master.Base.{
  ℕ, zero, suc, ◌+◌, ◌<◌, ◌≡◌, refl, List, [], ◌∷◌, ◌++◌, arith, length, select, ltb, nat_eq, ⊤,
  if◌then◌else◌, is_some,
}
use mvp_master.Dict.{get-put}
use mvp_master.Contracts.{Uuid}
use mvp_master.Delivery.Models.{ExecutionEvent}
use mvp_master.Delivery.Store.{
  Store, events_of, append_event, list_events, get_execution, next_event_sequence,
}

-- The sequence numbers run from `n`.
abbrev pub NumberedFrom : ℕ → List ExecutionEvent → Type 0
NumberedFrom n [] = ⊤
NumberedFrom n (ev ∷ l) = (ev.sequence ≡ n) × NumberedFrom (suc n) l

abbrev pub drop : ℕ → List ExecutionEvent → List ExecutionEvent
drop zero l = l
drop (suc n) [] = []
drop (suc n) (ev ∷ l) = drop n l

pub NumberedFrom-append :
    (n : ℕ) (l : List ExecutionEvent) (ev : ExecutionEvent)
    → NumberedFrom n l
    → ev.sequence ≡ n + length l
    → NumberedFrom n (l ++ ev ∷ [])
NumberedFrom-append n [] ev h p = (omega arith, tt)
NumberedFrom-append n (x ∷ l) ev h p = (h.0, NumberedFrom-append (suc n) l ev h.1 (omega arith))

-- All of a numbered list is after a number below its start.
select-all :
    (n m : ℕ) (l : List ExecutionEvent)
    → NumberedFrom n l
    → m < n
    → select (λ ev. ltb m ev.sequence) l ≡ l
unfolding select
select-all n m [] h p = refl
select-all n m (x ∷ l) h p = ground (arith, select-all (suc n) m l h.1)

select-drop :
    (n m b : ℕ) (l : List ExecutionEvent)
    → NumberedFrom (suc n) l
    → b ≡ n + m
    → select (λ ev. ltb b ev.sequence) l ≡ drop m l
unfolding select
select-drop n zero b l h p = select-all (suc n) b l h (omega arith)
select-drop n (suc m) b [] h p = refl
select-drop n (suc m) b (x ∷ l) h p = ground (arith, select-drop (suc n) m b l h.1 (omega arith))

abbrev pub AllNumbered : Store → Type 0
AllNumbered s = (k : Uuid) → NumberedFrom 1 (events_of s k)

-- Where the events of each execution are numbered 1, 2, 3 and so on, a reader who has seen those
-- up to number `n` and asks its own organization's execution for more gets the events that
-- follow, all and in order; another organization gets none.
pub list_events-resumes :
    (s : Store) (o x : Uuid) (n : ℕ)
    → AllNumbered s
    → list_events s o x n ≡ (if is_some (get_execution s o x) then drop n (events_of s x) else [])
unfolding list_events
list_events-resumes s o x n h = ground (arith, select-drop 0 n n (events_of s x) (h x))

-- Appending an event with the next number keeps the events of every execution numbered.
pub append_event-AllNumbered :
    (s : Store) (ev : ExecutionEvent)
    → ev.sequence ≡ next_event_sequence s ev.execution_id
    → AllNumbered s
    → AllNumbered (append_event ev s).1
unfolding append_event next_event_sequence
append_event-AllNumbered s ev p h k = ground (
  arith,
  get-put s.events ev.execution_id (events_of s ev.execution_id ++ ev ∷ []) k,
  NumberedFrom-append 1 (events_of s k) ev (h k),
  h k,
)
